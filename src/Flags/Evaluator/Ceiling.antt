-- ===== src/Flags/Evaluator/Ceiling.antt =====
-- packages/feature-flags/src/evaluator.ts: `parseDeploymentCeiling`.
use mathlib.Core.Path.{ap₂, subst}
use mathlib.Core.List.{Memᴰ}
use mathlib.Core.Bool.{decide}
use reflo_learning.Prelude.{
  ℕ, ◌≡◌, refl, sym, ◌↔◌, ◌≢◌, inl, inr, String, false, Option, none, some, List, [], ◌∷◌, map,
  if◌then◌else◌, units, trim, split, arith, Option-cases, Bool-cases, ◌∙◌, ap, true, ◌++◌, ◌⊎◌, All,
  Memᴰ-nil, Memᴰ-left, Memᴰ-last, Memᴰ-add,
}
use reflo_learning.Flags.Registry.{
  P1FlagKey, key_text, as_p1_flag_key, as_p1_flag_key_sound, as_p1_flag_key-key_text,
  P1FlagKey-discrete,
}
use reflo_learning.Flags.Evaluator.{
  DeploymentCeiling, ceiling_invalid, ceiling_missing, ceiling_valid, is_nil, allows, CeilingStatus,
}

-- The keys that the entries name, if every entry names one. Neither "" nor "*" is a key.
unfoldable pub keys_of : List (List ℕ) → Option (List P1FlagKey)
keys_of [] = some []
keys_of (entry ∷ entries) =
    let rest = keys_of entries in
    elim (as_p1_flag_key entry) [
      | none ↦ none
      | some key ↦ elim rest [ none ↦ none | some keys ↦ some (key ∷ keys) ]
    ]

-- `new Set(keys)`: each key once, where it is first.
unfoldable pub add_key : List P1FlagKey → P1FlagKey → List P1FlagKey
add_key kept key = if allows kept key then kept else kept ++ (key ∷ [])

unfoldable pub key_set : List P1FlagKey → List P1FlagKey → List P1FlagKey
key_set kept [] = kept
key_set kept (key ∷ keys) = key_set (add_key kept key) keys

unfoldable pub parse_deployment_ceiling : Option String → DeploymentCeiling
parse_deployment_ceiling none = record { allowed = []; status = ceiling_missing }
parse_deployment_ceiling (some value) =
    if is_nil (trim (units value))
    then record { allowed = []; status = ceiling_missing }
    else elim (keys_of (map trim (split b',' (units value)))) [
      | none ↦ record { allowed = []; status = ceiling_invalid }
      | some keys ↦ record { allowed = key_set [] keys; status = ceiling_valid }
    ]

-- The texts of flags, as code units.
abbrev texts : List P1FlagKey → List (List ℕ)
texts = map (λ k. units (key_text k))

keys_of_sound :
    (entries : List (List ℕ)) {keys : List P1FlagKey}
    → keys_of entries ≡ some keys
    → texts keys ≡ entries
unfolding keys_of
keys_of_sound [] {keys} h = let e : [] ≡ keys = cc in subst (λ ks. texts ks ≡ []) e refl
keys_of_sound (entry ∷ entries) {keys} h = elim (Option-cases (as_p1_flag_key entry)) [
  | inl e ↦ absurd (ground arith)
  | inr (key, e) ↦ elim (Option-cases (keys_of entries)) [
    | inl r ↦ absurd (ground arith)
    | inr (rest, r) ↦
        let same : key ∷ rest ≡ keys = ground arith in
        subst (λ ks. texts ks ≡ entry ∷ entries) same
          (ap₂ ◌∷◌ (as_p1_flag_key_sound entry e) (keys_of_sound entries r))
  ]
]

-- An entry is the text of a key.
abbrev pub IsKeyText : List ℕ → Type 0
IsKeyText entry = (k : P1FlagKey) × (units (key_text k) ≡ entry)

keys_of-read :
    (entries : List (List ℕ))
    → All IsKeyText entries
    → (keys : List P1FlagKey) × (keys_of entries ≡ some keys)
unfolding keys_of
keys_of-read [] h = ([], refl)
keys_of-read (entry ∷ entries) ((k, e), h) =
    let (keys, read) = keys_of-read entries h in
    let here : as_p1_flag_key entry ≡ some k =
      ap as_p1_flag_key (sym e) ∙ as_p1_flag_key-key_text k in
    (k ∷ keys, rw (here, keys_of) (rw read refl))

texts-IsKeyText : (keys : List P1FlagKey) → All IsKeyText (texts keys)
texts-IsKeyText [] = tt
texts-IsKeyText (k ∷ ks) = ((k, refl), texts-IsKeyText ks)

-- The members of a set of keys, by cases on what is added.
allows-Memᴰ : (keys : List P1FlagKey) (key : P1FlagKey) → allows keys key ≡ true → Memᴰ key keys
unfolding allows decide
allows-Memᴰ [] key h = absurd (cc)
allows-Memᴰ (k ∷ ks) key h = elim (P1FlagKey-discrete k key) [
  | yes e ↦ Memᴰ.head (sym e)
  | no n ↦ Memᴰ.tail (allows-Memᴰ ks key (ground arith))
]

Memᴰ-add_key :
    (x : P1FlagKey) (kept : List P1FlagKey) (key : P1FlagKey)
    → Memᴰ x (add_key kept key) ↔ (Memᴰ x kept ⊎ (x ≡ key))
unfolding add_key
Memᴰ-add_key x kept key = elim (Bool-cases (allows kept key)) [
  | inl old ↦
      let there = allows-Memᴰ kept key old in
      rw old
        ((λ m. inl m), (λ c. elim c [ inl m ↦ m | inr e ↦ subst (λ y. Memᴰ y kept) (sym e) there ]))
  | inr new ↦ rw new (
    Memᴰ-add x key kept,
    (λ c. elim c [
      | inl m ↦ Memᴰ-left kept (key ∷ []) m
      | inr e ↦ subst (λ y. Memᴰ y (kept ++ (key ∷ []))) (sym e) (Memᴰ-last key kept)
    ]),
  )
]

Memᴰ-key_set :
    (x : P1FlagKey) (kept keys : List P1FlagKey)
    → Memᴰ x (key_set kept keys) ↔ (Memᴰ x kept ⊎ Memᴰ x keys)
unfolding key_set
Memᴰ-key_set x kept [] = ((λ m. inl m), (λ c. elim c [ inl m ↦ m | inr m ↦ absurd (Memᴰ-nil m) ]))
Memᴰ-key_set x kept (key ∷ keys) =
    let (found, back) = Memᴰ-key_set x (add_key kept key) keys in
    let (was, into) = Memᴰ-add_key x kept key in
    (
      (λ m. elim (found m) [
        | inl early ↦ elim (was early) [ inl k ↦ inl k | inr e ↦ inr (Memᴰ.head e) ]
        | inr later ↦ inr (Memᴰ.tail later)
      ]),
      (λ c. elim c [ inl k ↦ back (inl (into (inl k))) | inr m ↦ split_at m back into ]),
    )
  where
    split_at :
        Memᴰ x (key ∷ keys)
        → ((Memᴰ x (add_key kept key) ⊎ Memᴰ x keys) → Memᴰ x (key_set (add_key kept key) keys))
        → ((Memᴰ x kept ⊎ (x ≡ key)) → Memᴰ x (add_key kept key))
        → Memᴰ x (key_set (add_key kept key) keys)
    split_at (Memᴰ.head e) back into = back (inl (into (inr e)))
    split_at (Memᴰ.tail m) back into = back (inr m)

text_in :
    (x : P1FlagKey) (keys : List P1FlagKey) → Memᴰ x keys → Memᴰ (units (key_text x)) (texts keys)
text_in x [] m = elim m [ ]
text_in x (k ∷ ks) (Memᴰ.head e) = Memᴰ.head (ap (λ y. units (key_text y)) e)
text_in x (k ∷ ks) (Memᴰ.tail m) = Memᴰ.tail (text_in x ks m)

some_key-injective : (x k : P1FlagKey) → units (key_text x) ≡ units (key_text k) → x ≡ k
some_key-injective x k e =
    some-injective
      (sym (as_p1_flag_key-key_text x) ∙ ap as_p1_flag_key e ∙ as_p1_flag_key-key_text k)
  where
    some-injective : {a b : P1FlagKey} → some a ≡ some b → a ≡ b
    some-injective h = cc

from_text :
    (x : P1FlagKey) (keys : List P1FlagKey) → Memᴰ (units (key_text x)) (texts keys) → Memᴰ x keys
from_text x [] m = elim m [ ]
from_text x (k ∷ ks) (Memᴰ.head e) = Memᴰ.head (some_key-injective x k e)
from_text x (k ∷ ks) (Memᴰ.tail m) = Memᴰ.tail (from_text x ks m)

-- A setting that is not blank is a valid ceiling exactly when each of its entries between commas,
-- trimmed, is the text of a key, and it allows exactly the keys whose texts are among the entries of a
-- valid setting, however often they are there.
pub parse_deployment_ceiling-valid_iff :
    (value : String)
    → is_nil (trim (units value)) ≡ false
    → let ceiling = parse_deployment_ceiling (some value) in
      let entries = map trim (split b',' (units value)) in
      ((ceiling.status ≡ ceiling_valid) ↔ All IsKeyText entries)
      × ((key : P1FlagKey)
          → Memᴰ key ceiling.allowed
            ↔ ((ceiling.status ≡ ceiling_valid) × Memᴰ (units (key_text key)) entries))
unfolding parse_deployment_ceiling
parse_deployment_ceiling-valid_iff value h =
    let entries = map trim (split b',' (units value)) in
    elim (Option-cases (keys_of entries)) [
      | inl unread ↦
          rw (h, unread)
            (
              ((λ e. absurd (cc)), (λ all_keys. absurd (no_keys entries all_keys unread))),
              (λ key. ((λ m. absurd (Memᴰ-nil m)), (λ v. absurd (not_valid v.0)))),
            )
      | inr (keys, read) ↦
          let same = keys_of_sound entries read in
          rw (h, read)
            (
              ((λ e. subst (All IsKeyText) same (texts-IsKeyText keys)), (λ all_keys. refl)),
              (λ key. (
                (λ m. (
                  refl,
                  subst (Memᴰ (units (key_text key))) same
                      (text_in key keys (in_keys key keys ((Memᴰ-key_set key [] keys).0 m))),
                )),
                (λ v. (Memᴰ-key_set key [] keys).1 (
                    inr (from_text key keys (subst (Memᴰ (units (key_text key))) (sym same) v.1)))),
              )),
            )
    ]
  where
    no_keys : (entries : List (List ℕ)) → All IsKeyText entries → keys_of entries ≡ none → ⊥
    no_keys entries all_keys unread =
        let (keys, read) = keys_of-read entries all_keys in clash (sym unread ∙ read)
      where
        clash : {keys : List P1FlagKey} → ◌≡◌ {A = Option (List P1FlagKey)} none (some keys) → ⊥
        clash e = cc

    not_valid : ◌≡◌ {A = CeilingStatus} ceiling_invalid ceiling_valid → ⊥
    not_valid e = cc

    in_keys :
        (key : P1FlagKey) (keys : List P1FlagKey) → (Memᴰ key [] ⊎ Memᴰ key keys) → Memᴰ key keys
    in_keys key keys (inl m) = absurd (Memᴰ-nil m)
    in_keys key keys (inr m) = m

-- A ceiling that is not valid allows no flag.
pub parse_deployment_ceiling-closed :
    (value : Option String)
    → (parse_deployment_ceiling value).status ≢ ceiling_valid
    → (parse_deployment_ceiling value).allowed ≡ []
unfolding parse_deployment_ceiling
parse_deployment_ceiling-closed value h = ground arith
