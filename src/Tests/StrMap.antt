-- ===== src/Tests/StrMap.antt =====
-- src/util/strmap.c on a map of 16 slots with one key.
use multi_agent.Common.{
  ℕ, ◌≡◌, refl, sym, ◌∙◌, subst, some, arith, Bytes, str_eq, codes, set, if◌then◌else◌,
}
use mathlib.Core.Option.{some-injective}
use multi_agent.Util.Errno.{ok}
use multi_agent.Util.StrMap.{
  Map, used, removed, vacancies, hash, init, set_value, insert_owned, get_value, contains, remove,
  clear,
}
use multi_agent.Util.StrMap.Slots.{lookup}
use multi_agent.Util.StrMap.Valid.{IsValid}
use multi_agent.Util.StrMap.Insert.{insert_owned_lem}
use multi_agent.Util.StrMap.Fresh.{vacancies-IsValid}
use multi_agent.Util.StrMap.Rehash.{set_value_lem}
use multi_agent.Util.StrMap.Contents.{get_value-contains, remove_lem, Removed, is_some}

abbrev name : Bytes
name = codes "ab"

abbrev no_keys : Map ℕ
no_keys = record { entries = vacancies 16; count = 0; deleted = 0 }

no_keys-IsValid : IsValid no_keys
no_keys-IsValid = vacancies-IsValid 16 4 refl (omega arith)

-- The key goes to slot 10.
abbrev one_key : Map ℕ
one_key = record {
  entries = set (vacancies 16) 10 (used name (hash name) 7);
  count = 1;
  deleted = 0;
}

-- Inserting the key into no keys gives that map.
inserted : insert_owned no_keys name (hash name) 7 ≡ some one_key
unfolding insert_owned multi_agent.Util.StrMap.find_slot multi_agent.Util.StrMap.probe hash
    multi_agent.Util.StrMap.hash_from vacancies
inserted = refl

one_key-IsValid : IsValid one_key
unfolding vacancies
one_key-IsValid =
    let (m, e, r) = insert_owned_lem no_keys name 7 no_keys-IsValid (omega arith) in
    subst IsValid (some-injective _ _ (sym e ∙ inserted)) r.valid

-- The removed slot is used again.
again :
    insert_owned
      (record { entries = set (vacancies 16) 10 removed; count = 0; deleted = 1 })
      name
      (hash name)
      7
    ≡ some one_key
unfolding insert_owned multi_agent.Util.StrMap.find_slot multi_agent.Util.StrMap.probe hash
    multi_agent.Util.StrMap.hash_from vacancies
again = refl

set_value_lem_example :
    (m : Map ℕ) × (set_value one_key (some (codes "c")) 8 ≡ some (ok m))
    × IsValid m
    × ((j : Bytes)
        → lookup m.entries j ≡ (if str_eq (codes "c") j then some 8 else lookup one_key.entries j))
unfolding vacancies
set_value_lem_example = set_value_lem one_key (codes "c") 8 one_key-IsValid (omega arith)

get_value-contains_example :
    (get_value one_key (some name) ≡ some (lookup one_key.entries name))
    × (contains one_key (some name) ≡ some (is_some (lookup one_key.entries name)))
get_value-contains_example = get_value-contains one_key name one_key-IsValid

remove_lem_example :
    (m : Map ℕ) × (remove one_key (some name) ≡ some (m, is_some (lookup one_key.entries name)))
    × Removed one_key name m
remove_lem_example = remove_lem one_key name one_key-IsValid
