-- ===== src/Tun/Kv/Results.antt =====
-- What a successful part of a handler tells of its parts.
use specter.Prelude.{◌≡◌, refl, ap, List, [], ◌∷◌, map, length, arith}
use specter.Errors.{Result, ok, err}
use specter.Tun.Kv.{World, M, then_, all, values, cons_value}

pub then_ok :
    {A B : Type 0} (r : World × Result A) (f : A → M B) (b : B)
    → (then_ r f).1 ≡ ok b
    → (a : A) × (r.1 ≡ ok a) × (then_ r f ≡ f a r.0)
unfolding then_
then_ok (w, err e) f b h = cc
then_ok (w, ok a) f b h = (a, refl, refl)

pub cons_value_ok :
    {A : Type 0} (a : A) (r : Result (List A)) {xs : List A}
    → cons_value a r ≡ ok xs
    → (rest : List A) × (r ≡ ok rest) × (xs ≡ a ∷ rest)
unfolding cons_value
cons_value_ok a (err e) h = cc
cons_value_ok a (ok rest) h = (rest, refl, cc)

pub values_cons :
    {A : Type 0} (r : Result A) (rs : List (Result A)) (xs : List A)
    → values (r ∷ rs) ≡ ok xs
    → (a : A) × (rest : List A) × (r ≡ ok a) × (values rs ≡ ok rest) × (xs ≡ a ∷ rest)
unfolding values
values_cons (err e) rs xs h = cc
values_cons (ok a) rs xs h =
    let (rest, e, shape) = cons_value_ok a (values rs) h in (a, rest, refl, e, shape)

pub no_values : {A : Type 0} (xs : List A) → values [] ≡ ok xs → [] ≡ xs
unfolding values
no_values xs h = cc

pub length-all : {A : Type 0} (jobs : List (M A)) (w : World) → length (all jobs w).1 ≡ length jobs
unfolding all
length-all [] w = refl
length-all (job ∷ jobs) w = omega (arith, length-all jobs (job w).0)

pub length-values :
    {A : Type 0} (rs : List (Result A)) {xs : List A} → values rs ≡ ok xs → length xs ≡ length rs
unfolding values
length-values [] h = ground arith
length-values (err e ∷ rs) h = cc
length-values (ok a ∷ rs) h =
    let (rest, e, shape) = cons_value_ok a (values rs) h in
    omega (arith, length-values rs e, ap length shape)

pub length-map : {A B : Type 0} (f : A → B) (xs : List A) → length (map f xs) ≡ length xs
length-map f [] = refl
length-map f (x ∷ xs) = omega (arith, length-map f xs)

-- What holds after the second part, if both succeed, holds after the whole.
pub then_after :
    {A B : Type 0} (Holds : World → Type 0) (r : World × Result A) (f : A → M B) (b : B)
    → ((a : A) → r.1 ≡ ok a → (f a r.0).1 ≡ ok b → Holds (f a r.0).0)
    → (then_ r f).1 ≡ ok b
    → Holds (then_ r f).0
unfolding then_
then_after Holds (w, err e) f b g h = cc
then_after Holds (w, ok a) f b g h = g a refl h
