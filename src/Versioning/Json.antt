-- ===== src/Versioning/Json.antt =====
-- Versions as JSON: `node_version_to_json`, `validate_node_version_json` and
-- `verify_restored_node_version` of crates/graphrefly/src/versioning.rs.
use Prim.Native.String.{◌++◌ as str_append}
use graphrefly_rs.Prelude.{
  ℕ, ◌==◌, Bool, not, ◌&&◌, ◌||◌, Option, none, some, List, [], ◌∷◌, String, str_eq, any, ◌>>=◌,
  length, ltb, if◌then◌else◌, is_some,
}
use graphrefly_rs.Versioning.{
  Result, ok, err, ◌and_then◌, ok_or, ResolvedNodeVersioningPolicy, NodeVersion, v0, v1, Codec,
  max_safe_integer, hash_node_data,
}
use graphrefly_rs.Versioning.Strict.{JsonValues, validate_strict_json_value}

-- `Map::get`.
unfoldable pub get_field {ℓ} : {V : Type ℓ} → String → List (String × V) → Option V
get_field name [] = none
get_field name ((k, v) ∷ rest) =
    let later = get_field name rest in if str_eq k name then some v else later

module _ (json : JsonValues) where
  unfoldable pub node_version_to_json : NodeVersion → json.Value
  node_version_to_json (v0 n) =
      json.object (("level", json.number 0) ∷ ("counter", json.number n) ∷ [])
  node_version_to_json (v1 n cid none) = json.object (
      ("level", json.number 1)
      ∷ ("counter", json.number n)
      ∷ ("cid", json.text cid)
      ∷ ("prev", json.null)
      ∷ [])
  node_version_to_json (v1 n cid (some prev)) = json.object (
      ("level", json.number 1)
      ∷ ("counter", json.number n)
      ∷ ("cid", json.text cid)
      ∷ ("prev", json.text prev)
      ∷ [])

  unfoldable pub require_fields :
      List (String × json.Value) → List String → String → Result {0} Unit
  require_fields fields names path =
      if not (length fields == length names)
        || any (λ name. not (is_some (get_field name fields))) names
      then err
          (str_append "restore_graph: " (str_append path " has unexpected node version fields"))
      else ok tt

  unfoldable pub read_counter : Option json.Value → String → Result ℕ
  read_counter value path =
      let message =
        str_append "restore_graph: "
          (str_append path ".counter must be a non-negative safe integer") in
      ok_or (value >>= json.as_u64) message and_then λ n.
      (if ltb max_safe_integer n then err message else ok n)

  -- The `prev` of a version of level 1.
  unfoldable pub read_prev : Option json.Value → String → Result (Option String)
  read_prev none path =
      err (str_append "restore_graph: " (str_append path ".prev must be a string or null"))
  read_prev (some value) path =
      if json.is_null value
      then ok none
      else (ok_or (json.as_str value)
            (str_append "restore_graph: " (str_append path ".prev must be a string or null"))
          and_then λ prev. ok (some prev))

  unfoldable pub check_prev : ℕ → Option String → String → Result {0} Unit
  check_prev n prev path =
      if (n == 0) && is_some prev
      then err
          (str_append "restore_graph: " (str_append path ".prev must be null when counter is 0"))
      else if ltb 0 n && not (is_some prev)
      then err (
          str_append "restore_graph: "
            (str_append path ".prev must be a string when counter is > 0"))
      else ok tt

  unfoldable pub validate_level1 : List (String × json.Value) → String → Result NodeVersion
  validate_level1 fields path =
      require_fields fields ("level" ∷ "counter" ∷ "cid" ∷ "prev" ∷ []) path and_then λ known.
      read_counter (get_field "counter" fields) path and_then λ n.
      ok_or (get_field "cid" fields >>= json.as_str)
        (str_append "restore_graph: " (str_append path ".cid must be a string"))
      and_then λ cid. read_prev (get_field "prev" fields) path and_then λ prev.
          check_prev n prev path and_then λ checked. ok (v1 n cid prev)

  unfoldable pub validate_level0 : List (String × json.Value) → String → Result NodeVersion
  validate_level0 fields path =
      require_fields fields ("level" ∷ "counter" ∷ []) path and_then λ known.
      read_counter (get_field "counter" fields) path and_then λ n. ok (v0 n)

  abbrev pub validate_fields : List (String × json.Value) → String → Option ℕ → Result NodeVersion
  validate_fields fields path found = elim found [
    | none ↦ err (str_append "restore_graph: " (str_append path ".level must be 0 or 1"))
    | some n ↦
        if n == 0
        then validate_level0 fields path
        else if n == 1
        then validate_level1 fields path
        else err (str_append "restore_graph: " (str_append path ".level must be 0 or 1"))
  ]

  unfoldable pub validate_node_version_json : json.Value → String → Result NodeVersion
  validate_node_version_json value path = elim (validate_strict_json_value json value path) [
    | err issue ↦ err (
        str_append
          "restore_graph: node version metadata is not strict canonical JSON compatible (D112): "
          issue)
    | ok strict ↦
        ok_or (json.as_object value)
          (str_append "restore_graph: " (str_append path " must be an object"))
        and_then λ fields. validate_fields fields path (get_field "level" fields >>= json.as_u64)
  ]

  -- `Disabled` is `ok none`.
  unfoldable pub verify_level {ℓ} :
      {A : Type ℓ}
      → Codec A
      → ResolvedNodeVersioningPolicy
      → NodeVersion
      → Bool
      → Option A
      → Result (Option NodeVersion)
  verify_level codec ResolvedNodeVersioningPolicy.off version has_data cache =
      err
        "restore_graph: checkpoint node version metadata is present but node versioning is disabled"
  verify_level codec ResolvedNodeVersioningPolicy.counted (v0 n) has_data cache = ok (some (v0 n))
  verify_level codec ResolvedNodeVersioningPolicy.counted (v1 n cid prev) has_data cache =
      err "restore_graph: checkpoint node version level 1 requires matching node versioning policy"
  verify_level codec (ResolvedNodeVersioningPolicy.hashed hash) (v0 n) has_data cache =
      err "restore_graph: checkpoint node version level 0 requires matching node versioning policy"
  verify_level codec (ResolvedNodeVersioningPolicy.hashed hash) (v1 n cid prev) has_data cache =
      if not has_data && ltb 0 n
      then err
          "restore_graph: checkpoint node version cid cannot be verified without current DATA under V1 versioning (D109)"
      else (hash_node_data codec hash (if has_data then cache else none) and_then λ expected.
          (if str_eq expected cid
            then ok (some (v1 n cid prev))
            else err
                "restore_graph: checkpoint node version cid does not match the selected node versioning hash policy (D109)"))

  unfoldable pub verify_restored_node_version {ℓ} :
      {A : Type ℓ}
      → Codec A
      → ResolvedNodeVersioningPolicy
      → Option json.Value
      → Bool
      → Option A
      → String
      → Result (Option NodeVersion)
  verify_restored_node_version codec ResolvedNodeVersioningPolicy.off none has_data cache path =
      ok none
  verify_restored_node_version codec _ none has_data cache path =
      err
        "restore_graph: checkpoint node version metadata is required by the selected node versioning policy (D109)"
  verify_restored_node_version codec policy (some restored) has_data cache path =
      validate_node_version_json restored path and_then λ version.
      verify_level codec policy version has_data cache
