-- ===== src/Fastcgi/Auth/Cache.antt =====
-- src/sapi/fastcgi/auth.c: the cache of tokens as a map from tokens to users.
use multi_agent.Common.{
  same_or_not, ℕ, zero, suc, ◌<◌, false, Option, none, some, List, [], ◌∷◌, Bytes, str_eq,
  str_eq_iff, length, take_all, get_elem?-set_self, get_elem?-set_ne, length-set, set,
  if◌then◌else◌, ℤ, ◌≡◌, ◌≢◌, refl, sym, ap, ◌∙◌, subst, inl, inr, Bool-cases, Option-cases, arith,
}
use mathlib.Core.Option.{some-injective}
use multi_agent.Fastcgi.Auth.{
  User, Entry, Cache, token_cache_size, no_tokens, chain_index, chain, find_entry, cache_get,
  cut_user, update_entry, cache_put, delete_entry, cache_del,
}

-- The entries of chain i: their tokens belong there, fit their arrays, and stand there once.
abbrev pub IsChain : ℕ → List Entry → Type 0
IsChain i [] = Unit {0}
IsChain i (e ∷ es) =
    (chain_index e.token ≡ i)
    × (length e.token < 64)
    × (find_entry e.token es ≡ none)
    × IsChain i es

pub record IsCache (cache : Cache) : Type 0 where
  pub size : length cache ≡ token_cache_size
  pub chains : (i : ℕ) → IsChain i (chain cache i)

length-no_tokens : (n : ℕ) → length (no_tokens n) ≡ n
unfolding no_tokens
length-no_tokens zero = refl
length-no_tokens (suc n) = ap suc (length-no_tokens n)

chain-no_tokens : (n i : ℕ) → chain (no_tokens n) i ≡ []
unfolding no_tokens
chain-no_tokens zero i = refl
chain-no_tokens (suc n) zero = refl
chain-no_tokens (suc n) (suc i) = chain-no_tokens n i

pub no_tokens-IsCache : IsCache (no_tokens token_cache_size)
no_tokens-IsCache = record {
  size = length-no_tokens token_cache_size;
  chains = λ i. subst (IsChain i) (sym (chain-no_tokens token_cache_size i)) tt;
}

chain_index-lt : (tok : Bytes) → chain_index tok < token_cache_size
unfolding chain_index
chain_index-lt tok = omega arith

find-update :
    (tok j : Bytes) (u : User) (x : ℤ) (es es' : List Entry)
    → update_entry tok u x es ≡ some es'
    → find_entry j es' ≡ (
        if str_eq tok j
        then some (record { token = tok; user = cut_user u; expires_at = x })
        else find_entry j es)
unfolding update_entry find_entry
find-update tok j u x [] es' h = cc
find-update tok j u x (e ∷ es) es' h = elim (Option-cases (update_entry tok u x es)) [
  | inl gone ↦ ground (arith, str_eq_iff e.token tok, str_eq_iff tok j, str_eq_iff e.token j)
  | inr (rest, later) ↦ ground (
    arith,
    str_eq_iff e.token tok,
    str_eq_iff tok j,
    str_eq_iff e.token j,
    find-update tok j u x es rest later,
  )
]

update_none :
    (tok : Bytes) (u : User) (x : ℤ) (es : List Entry)
    → update_entry tok u x es ≡ none
    → find_entry tok es ≡ none
unfolding update_entry find_entry
update_none tok u x [] h = refl
update_none tok u x (e ∷ es) h = ground (arith, update_none tok u x es)

find-delete :
    (i : ℕ) (tok j : Bytes) (es : List Entry)
    → IsChain i es
    → find_entry j (delete_entry tok es) ≡ (if str_eq tok j then none else find_entry j es)
unfolding delete_entry find_entry
find-delete i tok j [] ok = ground arith
find-delete i tok j (e ∷ es) ok =
    let once = ok.2 in
    ground (
      arith,
      str_eq_iff e.token tok,
      str_eq_iff tok j,
      str_eq_iff e.token j,
      find-delete i tok j es ok.3,
    )

-- The chains are kept.
IsChain-changed :
    (i : ℕ) (tok : Bytes) (u : User) (x : ℤ) (e : Entry) (es rest : List Entry)
    → IsChain i (e ∷ es)
    → str_eq e.token tok ≡ false
    → update_entry tok u x es ≡ some rest
    → IsChain i rest
    → IsChain i (e ∷ rest)
IsChain-changed i tok u x e es rest ok other later ih = (
  ok.0,
  ok.1,
  ground (
    arith,
    ok.2,
    str_eq_iff e.token tok,
    str_eq_iff tok e.token,
    find-update tok e.token u x es rest later,
  ),
  ih,
)

IsChain-update :
    (i : ℕ) (tok : Bytes) (u : User) (x : ℤ) (es es' : List Entry)
    → IsChain i es
    → update_entry tok u x es ≡ some es'
    → IsChain i es'
unfolding update_entry
IsChain-update i tok u x [] es' ok h = cc
IsChain-update i tok u x (e ∷ es) es' ok h = elim (Bool-cases (str_eq e.token tok)) [
  | inl same ↦
      let now : record e { user = cut_user u; expires_at = x } ∷ es ≡ es' =
        some-injective _ _ (rw same at h) in
      subst (IsChain i) now (ok.0, ok.1, ok.2, ok.3)
  | inr other ↦ elim (Option-cases (update_entry tok u x es)) [
    | inl gone ↦ absurd (ground arith)
    | inr (rest, later) ↦
        let now : e ∷ rest ≡ es' = some-injective _ _ (rw (other, later) at h) in
        subst (IsChain i) now (
          IsChain-changed i tok u x e es rest ok other later
            (IsChain-update i tok u x es rest ok.3 later))
  ]
]

delete_none :
    (tok j : Bytes) (es : List Entry)
    → find_entry j es ≡ none
    → find_entry j (delete_entry tok es) ≡ none
unfolding delete_entry find_entry
delete_none tok j [] h = refl
delete_none tok j (e ∷ es) h = ground (arith, delete_none tok j es)

IsChain-delete :
    (i : ℕ) (tok : Bytes) (es : List Entry) → IsChain i es → IsChain i (delete_entry tok es)
unfolding delete_entry
IsChain-delete i tok [] ok = tt
IsChain-delete i tok (e ∷ es) ok = elim (Bool-cases (str_eq e.token tok)) [
  | inl same ↦ rw same ok.3
  | inr other ↦ rw other (ok.0, ok.1, delete_none tok e.token es ok.2, IsChain-delete i tok es ok.3)
]

chain-set_self :
    (cache : Cache) (i : ℕ) (es : List Entry) → i < length cache → chain (set cache i es) i ≡ es
chain-set_self cache i es lt = rw (chain, get_elem?-set_self cache i es lt) refl

chain-set_ne :
    (cache : Cache) (i j : ℕ) (es : List Entry) → i ≢ j → chain (set cache i es) j ≡ chain cache j
chain-set_ne cache i j es ne = rw (chain, get_elem?-set_ne cache i j es ne) refl

-- A chain that is written anew.
IsCache-set :
    (cache : Cache) (i : ℕ) (es : List Entry)
    → IsCache cache
    → i < token_cache_size
    → IsChain i es
    → IsCache (set cache i es)
IsCache-set cache i es ok lt fresh = record {
  size = length-set cache i es ∙ ok.size;
  chains = λ j. elim (same_or_not i j) [
    | inl same ↦
        subst (λ k. IsChain k (chain (set cache i es) k)) same
          (subst (IsChain i) (sym (chain-set_self cache i es in_range)) fresh)
    | inr other ↦ subst (IsChain j) (sym (chain-set_ne cache i j es other)) (ok.chains j)
  ];
}
  where
    in_range : i < length cache
    in_range = let s = ok.size in omega arith

cache_get-set :
    (cache : Cache) (tok j : Bytes) (es : List Entry) (r : Option Entry)
    → IsCache cache
    → find_entry j es ≡ (if str_eq tok j then r else find_entry j (chain cache (chain_index tok)))
    → cache_get (set cache (chain_index tok) es) j ≡ (if str_eq tok j then r else cache_get cache j)
unfolding cache_get
cache_get-set cache tok j es r ok h = elim (same_or_not (chain_index tok) (chain_index j)) [
  | inl same ↦
      ap (λ k. find_entry j (chain (set cache (chain_index tok) es) k)) (sym same)
      ∙ ap (find_entry j) (chain-set_self cache (chain_index tok) es in_range)
      ∙ h
      ∙ ap (λ k. if str_eq tok j then r else find_entry j (chain cache k)) same
  | inr other ↦ elim (Bool-cases (str_eq tok j)) [
    | inl e ↦ absurd (other (ap chain_index ((str_eq_iff tok j).0 e)))
    | inr e ↦
        rw e (ap (find_entry j) (chain-set_ne cache (chain_index tok) (chain_index j) es other))
  ]
]
  where
    in_range : chain_index tok < length cache
    in_range = let s = ok.size in omega (arith, chain_index-lt tok)

abbrev entry : Bytes → User → ℤ → Entry
entry tok u x = record { token = tok; user = cut_user u; expires_at = x }

find_first :
    (tok j : Bytes) (u : User) (x : ℤ) (es : List Entry)
    → find_entry j (entry tok u x ∷ es)
      ≡ (if str_eq tok j then some (entry tok u x) else find_entry j es)
unfolding find_entry
find_first tok j u x es = refl

put_changed :
    (cache : Cache) (tok : Bytes) (u : User) (x : ℤ) (es : List Entry)
    → update_entry tok u x (chain cache (chain_index tok)) ≡ some es
    → cache_put cache tok u x ≡ set cache (chain_index tok) es
unfolding cache_put
put_changed cache tok u x es h = rw (cache_put, h) refl

put_new :
    (cache : Cache) (tok : Bytes) (u : User) (x : ℤ)
    → update_entry tok u x (chain cache (chain_index tok)) ≡ none
    → length tok < 64
    → cache_put cache tok u x
      ≡ set cache (chain_index tok) (entry tok u x ∷ chain cache (chain_index tok))
unfolding cache_put
put_new cache tok u x h short = rw (cache_put, h, take_all 63 tok (omega arith)) refl

-- What a cache with one entry more or changed is.
abbrev Puts : Cache → Bytes → User → ℤ → Cache → Type 0
Puts cache tok u x cache' =
    IsCache cache'
    × ((j : Bytes)
        → cache_get cache' j ≡ (if str_eq tok j then some (entry tok u x) else cache_get cache j))

-- What a token is put into the cache for is found under it, and what other tokens stand for is kept.
pub cache_get-put :
    (cache : Cache) (tok : Bytes) (u : User) (x : ℤ)
    → IsCache cache
    → length tok < 64
    → IsCache (cache_put cache tok u x)
      × ((j : Bytes)
          → cache_get (cache_put cache tok u x) j ≡ (
              if str_eq tok j
              then some (record { token = tok; user = cut_user u; expires_at = x })
              else cache_get cache j))
cache_get-put cache tok u x ok short =
    elim (Option-cases (update_entry tok u x (chain cache (chain_index tok)))) [
      | inr (es, changed) ↦
          subst (Puts cache tok u x) (sym (put_changed cache tok u x es changed)) (
            IsCache-set cache (chain_index tok) es ok (chain_index-lt tok) (
                IsChain-update (chain_index tok) tok u x _ es (ok.chains (chain_index tok))
                  changed),
            λ j.
                cache_get-set cache tok j es (some (entry tok u x)) ok
                  (find-update tok j u x (chain cache (chain_index tok)) es changed),
          )
      | inl gone ↦ subst (Puts cache tok u x) (sym (put_new cache tok u x gone short)) (
        IsCache-set cache (chain_index tok) (entry tok u x ∷ chain cache (chain_index tok)) ok
            (chain_index-lt tok)
            (
              refl,
              short,
              update_none tok u x (chain cache (chain_index tok)) gone,
              ok.chains (chain_index tok),
            ),
        λ j.
            cache_get-set cache tok j (entry tok u x ∷ chain cache (chain_index tok))
              (some (entry tok u x)) ok (find_first tok j u x (chain cache (chain_index tok))),
      )
    ]

pub cache_get-del :
    (cache : Cache) (tok : Bytes)
    → IsCache cache
    → IsCache (cache_del cache tok)
      × ((j : Bytes)
          → cache_get (cache_del cache tok) j ≡ (if str_eq tok j then none else cache_get cache j))
unfolding cache_del
cache_get-del cache tok ok = (
  IsCache-set cache (chain_index tok) _ ok (chain_index-lt tok)
      (IsChain-delete (chain_index tok) tok _ (ok.chains (chain_index tok))),
  λ j.
      cache_get-set cache tok j _ none ok
        (find-delete (chain_index tok) tok j _ (ok.chains (chain_index tok))),
)
