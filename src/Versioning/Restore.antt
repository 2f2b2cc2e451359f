-- ===== src/Versioning/Restore.antt =====
-- Versions through a checkpoint: writing them as JSON and restoring them.
use Prim.Native.String.{◌++◌ as str_append}
use graphrefly_rs.Prelude.{
  ℕ, ◌≤◌, ◌≡◌, refl, sym, ap, ◌∙◌, subst, true, false, inl, inr, Option, none, some, List, String,
  eq_iff, arith, is_some, ltb, le→ltb, ◌||◌, str_eq, pos, suc, [], ◌∷◌, Option-cases, ◌⊎◌, ◌≢◌,
  some-injective, none-ne-some,
}
use graphrefly_rs.Versioning.{
  Result, ok, err, ◌and_then◌, Bytes, ResolvedNodeVersioningPolicy, NodeVersion, v0, v1, Codec,
  max_safe_integer, hash_node_data, advance_node_version, next_counter, cid_of,
}
use graphrefly_rs.Collections.Maps.{collect, insert_row}
use graphrefly_rs.Collections.Maps.Strings.{text_order}
use graphrefly_rs.Versioning.Strict.{
  JsonValues, validate_strict_json_value, validate_inner, each_field, check_number, check_integer,
  check_float, out_of_safe,
}
use graphrefly_rs.Versioning.Json.{
  get_field, node_version_to_json, require_fields, read_counter, read_prev, check_prev,
  validate_level0, validate_level1, validate_node_version_json, verify_level,
  verify_restored_node_version,
}

-- What serde_json documents of its values: a map keeps its entries in the order of their keys, the last
-- one of each key, and a safe integer is itself in every form in which it can be asked for.
pub record IsJson (json : JsonValues) : Type 1 where
  pub as_object-object :
      (fields : List (String × json.Value))
      → json.as_object (json.object fields) ≡ some (collect text_order fields [])
  pub as_u64-number : (n : ℕ) → json.as_u64 (json.number n) ≡ some n
  pub as_i64-number : (n : ℕ) → n ≤ max_safe_integer → json.as_i64 (json.number n) ≡ some (pos n)
  pub as_f64-number :
      (n : ℕ) (x : json.Float)
      → n ≤ max_safe_integer
      → json.as_f64 (json.number n) ≡ some x
      → (json.is_subnormal x ≡ false) × (json.is_unsafe x ≡ false)
  pub number_text-number :
      (n : ℕ)
      → (str_eq (json.number_text (json.number n)) "-0.0"
          || str_eq (json.number_text (json.number n)) "-0")
        ≡ false
  pub as_str-text : (s : String) → json.as_str (json.text s) ≡ some s
  pub is_null-null : json.is_null json.null ≡ true
  pub is_null-text : (s : String) → json.is_null (json.text s) ≡ false
  pub is_number-number : (n : ℕ) → json.is_number (json.number n) ≡ true
  pub is_number-text : (s : String) → json.is_number (json.text s) ≡ false
  pub is_number-null : json.is_number json.null ≡ false
  pub as_object-number : (n : ℕ) → json.as_object (json.number n) ≡ none
  pub as_object-text : (s : String) → json.as_object (json.text s) ≡ none
  pub as_object-null : json.as_object json.null ≡ none
  pub as_array-number : (n : ℕ) → json.as_array (json.number n) ≡ none
  pub as_array-text : (s : String) → json.as_array (json.text s) ≡ none
  pub as_array-null : json.as_array json.null ≡ none

-- The counter is safe, and there is a previous content id exactly after the first value.
abbrev pub IsSound : NodeVersion → Type 0
IsSound (v0 n) = n ≤ max_safe_integer
IsSound (v1 n cid prev) = (n ≤ max_safe_integer) × (is_some prev ≡ ltb 0 n)

module _ (json : JsonValues) (laws : IsJson json) where
  check_prev_sound :
      (n : ℕ) (prev : Option String) (path : String)
      → is_some prev ≡ ltb 0 n
      → check_prev json n prev path ≡ ok tt
  unfolding check_prev
  check_prev_sound n prev path h = ground arith

  number_strict :
      (levels n : ℕ) (path : String)
      → n ≤ max_safe_integer
      → validate_inner json (suc levels) (json.number n) path ≡ ok tt
  unfolding validate_inner check_number check_integer check_float out_of_safe
  number_strict levels n path safe =
      rw
        (
          laws.as_object-number n,
          laws.as_array-number n,
          laws.is_number-number n,
          laws.number_text-number n,
          laws.as_i64-number n safe,
          le→ltb max_safe_integer n safe,
          validate_inner,
          check_number,
          check_integer,
          out_of_safe,
        )
        (elim (Option-cases (json.as_f64 (json.number n))) [
          | inl absent ↦ rw (absent, check_float) refl
          | inr (x, e) ↦
              let exact = laws.as_f64-number n x safe e in
              rw (e, exact.0, exact.1, check_float) refl
        ])

  text_strict :
      (levels : ℕ) (s path : String) → validate_inner json (suc levels) (json.text s) path ≡ ok tt
  unfolding validate_inner
  text_strict levels s path =
      rw (laws.as_object-text s, laws.as_array-text s, laws.is_number-text s, validate_inner) refl

  null_strict :
      (levels : ℕ) (path : String) → validate_inner json (suc levels) json.null path ≡ ok tt
  unfolding validate_inner
  null_strict levels path =
      rw (laws.as_object-null, laws.as_array-null, laws.is_number-null, validate_inner) refl

  -- The entries of a map, in the order of their keys.
  fields0 :
      (a b : json.Value)
      → collect text_order (("level", a) ∷ ("counter", b) ∷ []) []
        ≡ ("counter", b) ∷ ("level", a) ∷ []
  unfolding collect insert_row
  fields0 a b = refl

  fields1 :
      (a b c e : json.Value)
      → collect text_order (("level", a) ∷ ("counter", b) ∷ ("cid", c) ∷ ("prev", e) ∷ []) []
        ≡ ("cid", c) ∷ ("counter", b) ∷ ("level", a) ∷ ("prev", e) ∷ []
  unfolding collect insert_row
  fields1 a b c e = refl

  object0 :
      (a b : json.Value)
      → json.as_object (json.object (("level", a) ∷ ("counter", b) ∷ []))
        ≡ some (("counter", b) ∷ ("level", a) ∷ [])
  object0 a b = laws.as_object-object _ ∙ ap some (fields0 a b)

  object1 :
      (a b c e : json.Value)
      → json.as_object (json.object (("level", a) ∷ ("counter", b) ∷ ("cid", c) ∷ ("prev", e) ∷ []))
        ≡ some (("cid", c) ∷ ("counter", b) ∷ ("level", a) ∷ ("prev", e) ∷ [])
  object1 a b c e = laws.as_object-object _ ∙ ap some (fields1 a b c e)

  level_safe : 1 ≤ max_safe_integer
  level_safe = omega arith

  levels_strict :
      (levels : ℕ) (v : NodeVersion) (path : String)
      → IsSound v
      → validate_inner json (suc (suc levels)) (node_version_to_json json v) path ≡ ok tt
  unfolding validate_inner each_field node_version_to_json
  levels_strict levels (v0 n) path sound =
      rw
        (
          object0 (json.number 0) (json.number n),
          number_strict levels n (str_append path (str_append "." "counter")) sound,
          number_strict levels 0 (str_append path (str_append "." "level")) (omega arith),
          validate_inner,
          each_field,
        )
        refl
  levels_strict levels (v1 n cid none) path sound =
      rw
        (
          object1 (json.number 1) (json.number n) (json.text cid) json.null,
          number_strict levels n (str_append path (str_append "." "counter")) sound.0,
          number_strict levels 1 (str_append path (str_append "." "level")) level_safe,
          text_strict levels cid (str_append path (str_append "." "cid")),
          null_strict levels (str_append path (str_append "." "prev")),
          validate_inner,
          each_field,
        )
        refl
  levels_strict levels (v1 n cid (some prev)) path sound =
      rw
        (
          object1 (json.number 1) (json.number n) (json.text cid) (json.text prev),
          number_strict levels n (str_append path (str_append "." "counter")) sound.0,
          number_strict levels 1 (str_append path (str_append "." "level")) level_safe,
          text_strict levels cid (str_append path (str_append "." "cid")),
          text_strict levels prev (str_append path (str_append "." "prev")),
          validate_inner,
          each_field,
        )
        refl

  version_strict :
      (v : NodeVersion) (path : String)
      → IsSound v
      → validate_strict_json_value json (node_version_to_json json v) path ≡ ok tt
  unfolding validate_strict_json_value
  version_strict v path sound = levels_strict 127 v path sound

  -- A sound version that is written as JSON is strict JSON, and is read back as it was.
  pub validate_node_version_json-node_version_to_json :
      (v : NodeVersion) (path : String)
      → IsSound v
      → validate_node_version_json json (node_version_to_json json v) path ≡ ok v
  unfolding validate_node_version_json node_version_to_json validate_level0 validate_level1
      require_fields read_counter read_prev get_field
  validate_node_version_json-node_version_to_json (v0 n) path sound =
      rw
        (
          version_strict (v0 n) path sound,
          object0 (json.number 0) (json.number n),
          laws.as_u64-number 0,
          laws.as_u64-number n,
          le→ltb max_safe_integer n sound,
          validate_node_version_json,
          validate_level0,
          require_fields,
          read_counter,
          get_field,
        )
        refl
  validate_node_version_json-node_version_to_json (v1 n cid none) path sound =
      rw
        (
          version_strict (v1 n cid none) path sound,
          object1 (json.number 1) (json.number n) (json.text cid) json.null,
          laws.as_u64-number 1,
          laws.as_u64-number n,
          laws.as_str-text,
          laws.is_null-null,
          le→ltb max_safe_integer n sound.0,
          check_prev_sound n none path sound.1,
          validate_node_version_json,
          validate_level1,
          require_fields,
          read_counter,
          read_prev,
          get_field,
        )
        refl
  validate_node_version_json-node_version_to_json (v1 n cid (some prev)) path sound =
      rw
        (
          version_strict (v1 n cid (some prev)) path sound,
          object1 (json.number 1) (json.number n) (json.text cid) (json.text prev),
          laws.as_u64-number 1,
          laws.as_u64-number n,
          laws.as_str-text cid,
          laws.as_str-text prev,
          laws.is_null-text prev,
          le→ltb max_safe_integer n sound.0,
          check_prev_sound n (some prev) path sound.1,
          validate_node_version_json,
          validate_level1,
          require_fields,
          read_counter,
          read_prev,
          get_field,
        )
        refl

-- Whether a result is one value or another.
abbrev ok_of {ℓ} : {A : Type ℓ} → Result A → Option A
ok_of (ok a) = some a
ok_of (err message) = none

Result-cases {ℓ} :
    {A : Type ℓ} (r : Result A) → ((a : A) × (r ≡ ok a)) ⊎ ((message : String) × (r ≡ err message))
Result-cases (ok a) = inl (a, refl)
Result-cases (err message) = inr (message, refl)

ok-injective {ℓ} : {A : Type ℓ} (a b : A) → ◌≡◌ {A = Result A} (ok a) (ok b) → a ≡ b
ok-injective a b h = some-injective a b (ap ok_of h)

err-ne-ok {ℓ} : {A : Type ℓ} (m : String) (a : A) → ◌≢◌ {A = Result A} (err m) (ok a)
err-ne-ok m a h = none-ne-some a (ap ok_of h)

module _ {ℓ} {A : Type ℓ} (json : JsonValues) (codec : Codec A) where
  verified :
      (hash : Bytes → String) (n : ℕ) (cid : String) (prev : Option String) (value : A)
      → hash_node_data codec hash (some value) ≡ ok cid
      → verify_level json codec
          (ResolvedNodeVersioningPolicy.hashed hash)
          (v1 n cid prev)
          true
          (some value)
        ≡ ok (some (v1 n cid prev))
  unfolding verify_level
  verified hash n cid prev value h = rw (h, (eq_iff cid cid).1 refl) refl

  -- A version that an advance made fits its policy and its value.
  verify_level-advanced :
      (policy : ResolvedNodeVersioningPolicy) (current : Option NodeVersion) (value : A)
      (v : NodeVersion)
      → advance_node_version codec current policy value ≡ ok (some v)
      → verify_level json codec policy v true (some value) ≡ ok (some v)
  unfolding verify_level advance_node_version
  verify_level-advanced ResolvedNodeVersioningPolicy.off current value v h =
      absurd (none-ne-some v (ok-injective none (some v) h))
  verify_level-advanced ResolvedNodeVersioningPolicy.counted current value v h =
      elim (Result-cases (next_counter current)) [
        | inr (m, e) ↦
            absurd (err-ne-ok m (some v) (sym (ap (λ r. r and_then λ n. ok (some (v0 n))) e) ∙ h))
        | inl (n, e) ↦
            subst
              (λ x.
                verify_level json codec ResolvedNodeVersioningPolicy.counted x true (some value)
                ≡ ok (some x))
              (some-injective (v0 n) v (
                ok-injective (some (v0 n)) (some v)
                  (sym (ap (λ r. r and_then λ k. ok (some (v0 k))) e) ∙ h)))
              refl
      ]
  verify_level-advanced (ResolvedNodeVersioningPolicy.hashed hash) current value v h =
      elim (Result-cases (next_counter current)) [
        | inr (m, e) ↦
            absurd (err-ne-ok m (some v) (sym (ap (with_counter hash current value) e) ∙ h))
        | inl (n, e) ↦ elim (Result-cases (hash_node_data codec hash (some value))) [
          | inr (m, r) ↦ absurd (
              err-ne-ok m (some v)
                (sym (ap (with_counter hash current value) e ∙ ap (with_cid current n) r) ∙ h))
          | inl (cid, r) ↦
              subst
                (λ x.
                  verify_level json codec (ResolvedNodeVersioningPolicy.hashed hash) x true
                    (some value)
                  ≡ ok (some x))
                (some-injective (v1 n cid (cid_of current)) v (
                  ok-injective (some (v1 n cid (cid_of current))) (some v)
                    (sym (ap (with_counter hash current value) e ∙ ap (with_cid current n) r) ∙ h)))
                (verified hash n cid (cid_of current) value r)
        ]
      ]
    where
      with_cid : Option NodeVersion → ℕ → Result String → Result (Option NodeVersion)
      with_cid o n r = r and_then λ cid. ok (some (v1 n cid (cid_of o)))

      with_counter :
          (Bytes → String) → Option NodeVersion → A → Result ℕ → Result (Option NodeVersion)
      with_counter f o x r = r and_then λ n. with_cid o n (hash_node_data codec f (some x))

  -- The version that a value gives a node, written to a checkpoint with that value, is accepted when the
  -- checkpoint is restored under the same policy.
  pub verify_restored_node_version-advanced :
      (policy : ResolvedNodeVersioningPolicy) (current : Option NodeVersion) (value : A)
      (v : NodeVersion) (path : String)
      → IsJson json
      → advance_node_version codec current policy value ≡ ok (some v)
      → IsSound v
      → verify_restored_node_version json codec policy
          (some (node_version_to_json json v))
          true
          (some value)
          path
        ≡ ok (some v)
  unfolding verify_restored_node_version
  verify_restored_node_version-advanced policy current value v path laws h sound =
      rw
        (
          validate_node_version_json-node_version_to_json json laws v path sound,
          verify_restored_node_version,
        )
        (verify_level-advanced policy current value v h)
