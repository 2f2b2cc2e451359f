-- ===== src/Versioning.antt =====
-- Node versions: crates/graphrefly/src/versioning.rs. What it takes from serde_json and from the codec of
-- values is an interface.
use Prim.Native.String.{◌++◌ as str_append}
use graphrefly_rs.Prelude.{
  ℕ, ◌+◌, ◌==◌, Bool, true, false, not, ◌&&◌, ◌||◌, Option, none, some, List, [], ◌∷◌, ◌++◌, String,
  str_eq, any, length, leb, ltb, if◌then◌else◌, u64_max, is_some,
}
pub mod Strict
pub mod Json
pub mod Chain
pub mod Restore
pub mod Examples

pub data Result {ℓ} (A : Type ℓ) : Type ℓ where
  ok : A → Result A
  err : (message : String) → Result A

-- The `?` operator.
infixl 10 ◌and_then◌
abbrev pub ◌and_then◌ {ℓ ℓ'} : {A : Type ℓ} {B : Type ℓ'} → Result A → (A → Result B) → Result B
(ok a) and_then k = k a
(err message) and_then k = err message

abbrev pub ok_or {ℓ} : {A : Type ℓ} → Option A → String → Result A
ok_or none message = err message
ok_or (some a) message = ok a

-- Bytes are numbers.
abbrev pub Bytes : Type 0
Bytes = List ℕ

pub data NodeVersioningPolicy : Type 0 where
  disabled level0 : NodeVersioningPolicy
  level1 : (hash : Option (Bytes → String)) → NodeVersioningPolicy

pub data ResolvedNodeVersioningPolicy : Type 0 where
  off counted : ResolvedNodeVersioningPolicy
  hashed : (hash : Bytes → String) → ResolvedNodeVersioningPolicy

pub data NodeVersion : Type 0 where
  v0 : (counter : ℕ) → NodeVersion
  v1 : (counter : ℕ) (cid : String) (prev : Option String) → NodeVersion

unfoldable pub level : NodeVersion → ℕ
level (v0 n) = 0
level (v1 n cid prev) = 1

unfoldable pub counter : NodeVersion → ℕ
counter (v0 n) = n
counter (v1 n cid prev) = n

-- The largest integer that a JSON number holds exactly.
abbrev pub max_safe_integer : ℕ
max_safe_integer = 9007199254740991

-- `default_hash` is the hash that the library installs.
unfoldable pub resolve_node_versioning_policy :
    (Bytes → String) → Option NodeVersioningPolicy → ResolvedNodeVersioningPolicy
resolve_node_versioning_policy default_hash (some NodeVersioningPolicy.disabled) =
    ResolvedNodeVersioningPolicy.off
resolve_node_versioning_policy default_hash none = ResolvedNodeVersioningPolicy.counted
resolve_node_versioning_policy default_hash (some NodeVersioningPolicy.level0) =
    ResolvedNodeVersioningPolicy.counted
resolve_node_versioning_policy default_hash (some (NodeVersioningPolicy.level1 none)) =
    ResolvedNodeVersioningPolicy.hashed default_hash
resolve_node_versioning_policy default_hash (some (NodeVersioningPolicy.level1 (some hash))) =
    ResolvedNodeVersioningPolicy.hashed hash

unfoldable pub next_counter : Option NodeVersion → Result ℕ
next_counter none = ok 1
next_counter (some current) =
    let next = counter current + 1 in
    if ltb u64_max next
    then err "node versioning: counter overflow while advancing node runtime version (D109)"
    else if ltb max_safe_integer next
    then err "node versioning: counter exceeded the strict JSON safe-integer range (D109)"
    else ok next

-- What versions need of values: the canonical JSON bytes of a value, or why it has none, and those
-- of the value that stands for none.
pub record Codec {ℓ} (A : Type ℓ) : Type ℓ where
  pub bytes : A → Result Bytes
  pub absent_v1_seed : Bytes

-- The content id that a version has.
abbrev pub cid_of : Option NodeVersion → Option String
cid_of (some (v1 n cid prev)) = some cid
cid_of _ = none

module _ {ℓ} {A : Type ℓ} (codec : Codec A) where
  unfoldable pub hash_node_data : (Bytes → String) → Option A → Result String
  hash_node_data hash (some value) = codec.bytes value and_then λ bytes. ok (hash bytes)
  hash_node_data hash none = ok (hash codec.absent_v1_seed)

  unfoldable pub create_node_version :
      ResolvedNodeVersioningPolicy → Option A → Result (Option NodeVersion)
  create_node_version ResolvedNodeVersioningPolicy.off initial = ok none
  create_node_version ResolvedNodeVersioningPolicy.counted initial = ok (some (v0 0))
  create_node_version (ResolvedNodeVersioningPolicy.hashed hash) initial =
      hash_node_data hash initial and_then λ cid. ok (some (v1 0 cid none))

  unfoldable pub assert_node_version_data_compatible :
      ResolvedNodeVersioningPolicy → A → Result {0} Unit
  assert_node_version_data_compatible ResolvedNodeVersioningPolicy.off value = ok tt
  assert_node_version_data_compatible ResolvedNodeVersioningPolicy.counted value = ok tt
  assert_node_version_data_compatible (ResolvedNodeVersioningPolicy.hashed hash) value =
      codec.bytes value and_then λ bytes. ok tt

  unfoldable pub advance_node_version :
      Option NodeVersion → ResolvedNodeVersioningPolicy → A → Result (Option NodeVersion)
  advance_node_version current ResolvedNodeVersioningPolicy.off value = ok none
  advance_node_version current ResolvedNodeVersioningPolicy.counted value =
      next_counter current and_then λ n. ok (some (v0 n))
  advance_node_version current (ResolvedNodeVersioningPolicy.hashed hash) value =
      next_counter current and_then λ n.
      hash_node_data hash (some value) and_then λ cid. ok (some (v1 n cid (cid_of current)))
