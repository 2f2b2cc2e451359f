-- ===== src/Versioning/Examples.antt =====
-- Versions at concrete inputs, with a JSON type, a codec of numbers and a hash that serve as examples.
use Prim.Native.String.{◌++◌ as str_append}
use graphrefly_rs.Prelude.{
  ℕ, zero, suc, ◌+◌, ◌≡◌, refl, ap, Bool, true, false, Option, none, some, List, [], ◌∷◌, String,
  length, leb, ltb, le→ltb, ◌≤◌, subst, some-injective, ℤ, pos, if◌then◌else◌, arith,
}
use graphrefly_rs.Versioning.{
  ok, err, Bytes, Codec, ResolvedNodeVersioningPolicy, v0, v1, max_safe_integer, next_counter,
  hash_node_data, advance_node_version, counter,
}
use graphrefly_rs.Collections.Maps.{collect}
use graphrefly_rs.Collections.Maps.Strings.{text_order}
use graphrefly_rs.Versioning.Strict.{JsonValues}
use graphrefly_rs.Versioning.Json.{
  node_version_to_json, validate_node_version_json, verify_restored_node_version,
}
use graphrefly_rs.Versioning.Chain.{
  advance_each, Encodes, exceeded, newest, second_newest, cids, counts_to_bound, chains_content,
}
use graphrefly_rs.Versioning.Restore.{
  IsJson, validate_node_version_json-node_version_to_json, verify_restored_node_version-advanced,
}

mutual
  data Doc : Type 0 where
    doc_null : Doc
    doc_number : ℕ → Doc
    doc_text : String → Doc
    doc_object : Fields → Doc

  data Fields : Type 0 where
    end : Fields
    field : String → Doc → Fields → Fields

abbrev pack : List (String × Doc) → Fields
pack [] = end
pack ((k, v) ∷ rest) = field k v (pack rest)

abbrev unpack : Fields → List (String × Doc)
unpack end = []
unpack (field k v rest) = (k, v) ∷ unpack rest

unpack-pack : (fields : List (String × Doc)) → unpack (pack fields) ≡ fields
unpack-pack [] = refl
unpack-pack ((k, v) ∷ rest) = ap (λ r. (k, v) ∷ r) (unpack-pack rest)

abbrev doc_fields : Doc → Option (List (String × Doc))
doc_fields (doc_object fields) = some (unpack fields)
doc_fields _ = none

abbrev doc_u64 : Doc → Option ℕ
doc_u64 (doc_number n) = some n
doc_u64 _ = none

abbrev doc_str : Doc → Option String
doc_str (doc_text s) = some s
doc_str _ = none

abbrev doc_is_null : Doc → Bool
doc_is_null doc_null = true
doc_is_null _ = false

abbrev tally_of : ℕ → String
tally_of zero = ""
tally_of (suc n) = str_append "1" (tally_of n)

abbrev doc_i64 : Doc → Option ℤ
doc_i64 (doc_number n) = some (pos n)
doc_i64 _ = none

abbrev doc_is_number : Doc → Bool
doc_is_number (doc_number n) = true
doc_is_number _ = false

-- JSON without arrays, whose numbers are natural, and stand for themselves as floating-point numbers.
abbrev docs : JsonValues
docs = record {
  Value = Doc;
  Float = ℕ;
  null = doc_null;
  number = doc_number;
  text = doc_text;
  object = λ fields. doc_object (pack (collect text_order fields []));
  as_object = doc_fields;
  as_array = λ value. none;
  as_u64 = doc_u64;
  as_i64 = doc_i64;
  as_f64 = doc_u64;
  as_str = doc_str;
  is_null = doc_is_null;
  is_number = doc_is_number;
  number_text = λ value. "1";
  is_subnormal = λ x. false;
  is_unsafe = λ x. ltb max_safe_integer x;
  show = tally_of;
}

docs-IsJson : IsJson docs
docs-IsJson = record {
  as_object-object = λ fields. ap some (unpack-pack (collect text_order fields []));
  as_u64-number = λ n. refl;
  as_i64-number = λ n safe. refl;
  as_f64-number = λ n x safe e. (
    refl,
    le→ltb max_safe_integer x (subst (λ k. k ≤ max_safe_integer) (some-injective n x e) safe),
  );
  number_text-number = λ n. refl;
  as_str-text = λ s. refl;
  is_null-null = refl;
  is_null-text = λ s. refl;
  is_number-number = λ n. refl;
  is_number-text = λ s. refl;
  is_number-null = refl;
  as_object-number = λ n. refl;
  as_object-text = λ s. refl;
  as_object-null = refl;
  as_array-number = λ n. refl;
  as_array-text = λ s. refl;
  as_array-null = refl;
}

abbrev numbers : Codec ℕ
numbers = record { bytes = λ n. ok (n ∷ []); absent_v1_seed = [] }

abbrev tally : Bytes → String
tally [] = "seed"
tally (zero ∷ bs) = "h"
tally (suc n ∷ bs) = str_append "1" (tally (n ∷ bs))

abbrev five_six : List ℕ
five_six = 5 ∷ 6 ∷ []

abbrev two_three : List ℕ
two_three = 2 ∷ 3 ∷ []

counts_to_bound_example :
    advance_each numbers (some (v0 9007199254740990)) ResolvedNodeVersioningPolicy.counted five_six
    ≡ (if leb (9007199254740990 + length five_six) max_safe_integer
        then ok (some (v0 (9007199254740990 + length five_six)))
        else err exceeded)
counts_to_bound_example = counts_to_bound numbers 9007199254740990 five_six (omega arith)

three-Encodes : Encodes numbers (3 ∷ []) ((3 ∷ []) ∷ [])
three-Encodes = (refl, tt)

chains_content_example :
    advance_each numbers
      (some (v1 0 "seed" none))
      (ResolvedNodeVersioningPolicy.hashed tally)
      two_three
    ≡ ok (
        some (
          v1
            (0 + length two_three)
            (newest "seed" (cids tally ((2 ∷ []) ∷ (3 ∷ []) ∷ [])))
            (second_newest none "seed" (cids tally ((2 ∷ []) ∷ (3 ∷ []) ∷ [])))))
chains_content_example =
    chains_content numbers tally 0 "seed" none two_three ((2 ∷ []) ∷ (3 ∷ []) ∷ [])
      (refl, three-Encodes) (omega arith)

validate_node_version_json-node_version_to_json_example :
    validate_node_version_json docs (node_version_to_json docs (v1 2 "111h" (some "11h"))) "$"
    ≡ ok (v1 2 "111h" (some "11h"))
validate_node_version_json-node_version_to_json_example =
    validate_node_version_json-node_version_to_json docs docs-IsJson (v1 2 "111h" (some "11h")) "$"
      (omega arith, refl)

verify_restored_node_version-advanced_example :
    verify_restored_node_version docs numbers
      (ResolvedNodeVersioningPolicy.hashed tally)
      (some (node_version_to_json docs (v1 2 "111h" (some "11h"))))
      true
      (some 3)
      "$"
    ≡ ok (some (v1 2 "111h" (some "11h")))
unfolding advance_node_version next_counter hash_node_data counter
verify_restored_node_version-advanced_example =
    verify_restored_node_version-advanced docs numbers (ResolvedNodeVersioningPolicy.hashed tally)
      (some (v1 1 "11h" (some "seed"))) 3 (v1 2 "111h" (some "11h")) "$" docs-IsJson refl
      (omega arith, refl)
