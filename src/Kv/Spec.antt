-- ===== src/Kv/Spec.antt =====
-- What a store promises (spec/chord/kv.go): one map from keys to cells, without buckets, order or
-- deleted entries. A mutation is what kv/aof/proto logs: the operations that change the keys.
use specter.Prelude.{
  ℕ, Bool, false, ◌&&◌, ◌||◌, not, Option, none, some, List, [], ◌∷◌, Bytes, ◌=?◌, bytes_eq,
  if◌then◌else◌,
}
use specter.Errors.{Error, chord, kv_prefix_conflict}
use specter.Containers.{member}

-- protocol.KVTransfer
pub record Transfer : Type 0 where
  pub simple_value : Option Bytes
  pub prefix_children : List Bytes
  pub lease_token : ℕ

-- proto.Mutation, by its type.
pub data Mutation : Type 0 where
  simple_put : Bytes → Option Bytes → Mutation
  simple_delete : Bytes → Mutation
  prefix_append : Bytes → Bytes → Mutation
  prefix_remove : Bytes → Bytes → Mutation
  import : List Bytes → List Transfer → Mutation
  remove_keys : List Bytes → Mutation

pub record Cell : Type 0 where
  pub simple : Option Bytes
  pub lease : ℕ
  pub has : Bytes → Bool

abbrev pub empty_cell : Cell
empty_cell = record { simple = none; lease = 0; has = λ c. false }

abbrev pub Cells : Type 0
Cells = Bytes → Cell

abbrev pub update : Bytes → Cell → Cells → Cells
update key c s j = if key =? j then c else s j

abbrev pub imported : Transfer → Cell → Cell
imported t c = record {
  simple = t.simple_value;
  lease = t.lease_token;
  has = λ x. member x t.prefix_children || c.has x;
}

abbrev pub spec_import : List Bytes → List Transfer → Cells → Option Cells
spec_import [] values s = some s
spec_import (key ∷ keys) [] s = none
spec_import (key ∷ keys) (t ∷ values) s =
    spec_import keys values (update key (imported t (s key)) s)

abbrev pub spec_remove_keys : List Bytes → Cells → Cells
spec_remove_keys [] s = s
spec_remove_keys (key ∷ keys) s = spec_remove_keys keys (update key empty_cell s)

abbrev pub with_none : Option Cells → Option (Cells × Option Error)
with_none none = none
with_none (some s) = some (s, none)

-- The effect of a mutation and its error; `none` is a panic.
abbrev pub spec_step : Mutation → Cells → Option (Cells × Option Error)
spec_step (simple_put key value) s = some (update key (record (s key) { simple = value }) s, none)
spec_step (simple_delete key) s = some (update key (record (s key) { simple = none }) s, none)
spec_step (prefix_append key child) s =
    if (s key).has child
    then some (s, some (chord kv_prefix_conflict))
    else some (update key (record (s key) { has = λ x. (child =? x) || (s key).has x }) s, none)
spec_step (prefix_remove key child) s =
    some (update key (record (s key) { has = λ x. not (child =? x) && (s key).has x }) s, none)
spec_step (import keys values) s = with_none (spec_import keys values s)
spec_step (remove_keys keys) s = some (spec_remove_keys keys s, none)
