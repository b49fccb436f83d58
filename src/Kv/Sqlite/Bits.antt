-- ===== src/Kv/Sqlite/Bits.antt =====
-- kv/sqlite3/key_tracker.go: the bitmask of a tracker when one kind of entry comes or goes.
use specter.Prelude.{
  ℕ, ◌≡◌, refl, sym, ◌∙◌, Bool, true, false, ◌&&◌, ◌||◌, inl, inr, ltb, Bool-cases, arith,
}
use specter.Kv.Sqlite.Schema.{Flags}
use specter.Kv.Sqlite.{no_flags, simple_flag, prefix_flag, lease_flag, any_flag, new_flags, cancel}

pub Flags-ext :
    (a b : Flags) → a.simple ≡ b.simple → a.prefix ≡ b.prefix → a.lease ≡ b.lease → a ≡ b
Flags-ext a b s p l = λ i. record { simple = s i; prefix = p i; lease = l i }

or_true : (b : Bool) → ((b || true) && true) ≡ true
or_true b = ground arith

or_false : (b : Bool) → ((b || false) && true) ≡ b
or_false b = ground arith

and_false : (b : Bool) → ((b || false) && false) ≡ false
and_false b = ground arith

pub add_simple : (f : Flags) → new_flags f simple_flag no_flags ≡ record f { simple = true }
unfolding new_flags
add_simple f = Flags-ext _ _ (or_true f.simple) (or_false f.prefix) (or_false f.lease)

pub remove_simple : (f : Flags) → new_flags f no_flags simple_flag ≡ record f { simple = false }
unfolding new_flags
remove_simple f = Flags-ext _ _ (and_false f.simple) (or_false f.prefix) (or_false f.lease)

pub add_prefix : (f : Flags) → new_flags f prefix_flag no_flags ≡ record f { prefix = true }
unfolding new_flags
add_prefix f = Flags-ext _ _ (or_false f.simple) (or_true f.prefix) (or_false f.lease)

pub add_lease : (f : Flags) → new_flags f lease_flag no_flags ≡ record f { lease = true }
unfolding new_flags
add_lease f = Flags-ext _ _ (or_false f.simple) (or_false f.prefix) (or_true f.lease)

pub remove_lease : (f : Flags) → new_flags f no_flags lease_flag ≡ record f { lease = false }
unfolding new_flags
remove_lease f = Flags-ext _ _ (or_false f.simple) (or_false f.prefix) (and_false f.lease)

kept_prefix :
    (b : Bool) (n : ℕ)
    → (ltb 0 n ≡ true → b ≡ true)
    → ltb 0 n ≡ true
    → ((b || false) && true) ≡ ltb 0 n
kept_prefix b n h e = or_false b ∙ (h e ∙ sym e)

-- The bit of the children stays while there are children.
pub remove_prefix :
    (f : Flags) (n : ℕ)
    → (ltb 0 n ≡ true → f.prefix ≡ true)
    → new_flags f no_flags (cancel prefix_flag n) ≡ record f { prefix = ltb 0 n }
unfolding new_flags cancel
remove_prefix f n h = elim (Bool-cases (ltb 0 n)) [
  | inl e ↦ rw e (Flags-ext _ _ (or_false f.simple) (or_false f.prefix ∙ h e) (or_false f.lease))
  | inr e ↦ rw e (Flags-ext _ _ (or_false f.simple) (and_false f.prefix) (or_false f.lease))
]

or_none : (a b c : Bool) → (a || (b || c)) ≡ false → (a ≡ false) × (b ≡ false) × (c ≡ false)
or_none a b c h = ground arith

-- An entry that is the first of its key calls for its own flag only.
pub fresh_simple :
    (f : Flags) (b : Bool)
    → any_flag f ≡ false
    → record no_flags { simple = b } ≡ record f { simple = b }
fresh_simple f b h =
    let (s, p, l) = or_none f.simple f.prefix f.lease h in Flags-ext _ _ refl (sym p) (sym l)

pub fresh_prefix :
    (f : Flags) (b : Bool)
    → any_flag f ≡ false
    → record no_flags { prefix = b } ≡ record f { prefix = b }
fresh_prefix f b h =
    let (s, p, l) = or_none f.simple f.prefix f.lease h in Flags-ext _ _ (sym s) refl (sym l)

pub fresh_lease :
    (f : Flags) (b : Bool)
    → any_flag f ≡ false
    → record no_flags { lease = b } ≡ record f { lease = b }
fresh_lease f b h =
    let (s, p, l) = or_none f.simple f.prefix f.lease h in Flags-ext _ _ (sym s) (sym p) refl

pub fresh_remove :
    (f : Flags) (n : ℕ)
    → (ltb 0 n ≡ true → f.prefix ≡ true)
    → any_flag f ≡ false
    → no_flags ≡ record f { prefix = ltb 0 n }
fresh_remove f n h none =
    let (s, p, l) = or_none f.simple f.prefix f.lease none in
    Flags-ext _ _ (sym s) (sym (stays (ltb 0 n) f.prefix h p)) (sym l)
  where
    stays : (a b : Bool) → (a ≡ true → b ≡ true) → b ≡ false → a ≡ false
    stays a b h e = ground (arith, h)
