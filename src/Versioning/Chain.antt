-- ===== src/Versioning/Chain.antt =====
-- The versions of a node over its values: their counter and their content ids.
use graphrefly_rs.Prelude.{
  ℕ, suc, ◌+◌, ◌≤◌, ◌≡◌, refl, ap, ◌∙◌, false, Bool-cases, inl, inr, Option, some, List, [], ◌∷◌,
  String, length, leb, arith, if◌then◌else◌, le→ltb, le→leb, lt→leb, leb→le, subst, u64_max,
}
use graphrefly_rs.Versioning.{
  Result, ok, err, ◌and_then◌, Bytes, ResolvedNodeVersioningPolicy, NodeVersion, v0, v1, Codec,
  counter, next_counter, max_safe_integer, hash_node_data, advance_node_version,
}

module _ {ℓ} {A : Type ℓ} (codec : Codec A) where
  -- The version after these values, one after the other.
  unfoldable pub advance_each :
      Option NodeVersion → ResolvedNodeVersioningPolicy → List A → Result (Option NodeVersion)
  advance_each current policy [] = ok current
  advance_each current policy (value ∷ values) =
      advance_node_version codec current policy value and_then λ next.
      advance_each next policy values

  -- The canonical bytes of each value.
  abbrev pub Encodes : List A → List Bytes → Type 0
  Encodes [] [] = Unit
  Encodes [] (b ∷ bs) = ⊥
  Encodes (v ∷ vs) [] = ⊥
  Encodes (v ∷ vs) (b ∷ bs) = (codec.bytes v ≡ ok b) × Encodes vs bs

next_counter-next :
    (v : NodeVersion)
    → counter v + 1 ≤ max_safe_integer
    → next_counter (some v) ≡ ok (counter v + 1)
unfolding next_counter
next_counter-next v h =
    rw
      (
        le→ltb u64_max (counter v + 1) (omega (arith, h)),
        le→ltb max_safe_integer (counter v + 1) h,
        next_counter,
      )
      refl

abbrev pub exceeded : String
exceeded = "node versioning: counter exceeded the strict JSON safe-integer range (D109)"

next_counter-exceeded :
    (v : NodeVersion) → counter v ≡ max_safe_integer → next_counter (some v) ≡ err exceeded
unfolding next_counter
next_counter-exceeded v h = rw (h, next_counter) refl

at_bound :
    (n : ℕ) → n ≤ max_safe_integer → leb (n + 1) max_safe_integer ≡ false → n ≡ max_safe_integer
at_bound n h full = ground arith

-- The last content id of a chain that begins with one, and the one before it.
abbrev pub newest : String → List String → String
newest cid [] = cid
newest cid (c ∷ cs) = newest c cs

abbrev pub second_newest : Option String → String → List String → Option String
second_newest prev cid [] = prev
second_newest prev cid (c ∷ cs) = second_newest (some cid) c cs

abbrev pub cids : (Bytes → String) → List Bytes → List String
cids hash [] = []
cids hash (b ∷ bs) = hash b ∷ cids hash bs

module _ {ℓ} {A : Type ℓ} (codec : Codec A) where
  -- A counting version advances with every value, and fails at the first one past the last safe
  -- integer.
  pub counts_to_bound :
      (n : ℕ) (values : List A)
      → n ≤ max_safe_integer
      → advance_each codec (some (v0 n)) ResolvedNodeVersioningPolicy.counted values ≡ (
          if leb (n + length values) max_safe_integer
          then ok (some (v0 (n + length values)))
          else err exceeded)
  unfolding advance_each advance_node_version counter
  counts_to_bound n [] h =
      rw (le→leb (n + 0) max_safe_integer (omega (arith, h)))
        (ap (λ k. ok (some (v0 k))) (omega arith))
  counts_to_bound n (value ∷ values) h = elim (Bool-cases (leb (n + 1) max_safe_integer)) [
    | inl fits ↦ rw (next_counter-next (v0 n) (leb→le (n + 1) max_safe_integer fits)) (
        subst
          (λ k.
            advance_each codec (some (v0 (n + 1))) ResolvedNodeVersioningPolicy.counted values
            ≡ (if leb k max_safe_integer then ok (some (v0 k)) else err exceeded))
          (omega arith) (counts_to_bound (n + 1) values (leb→le (n + 1) max_safe_integer fits)))
    | inr last ↦
        let full = at_bound n h last in
        rw
          (
            next_counter-exceeded (v0 n) full,
            lt→leb (n + suc (length values)) max_safe_integer (omega (arith, full)),
          )
          refl
  ]

  -- A hashing version counts the values, has the content id of the last one, and names the content
  -- id before it.
  pub chains_content :
      (hash : Bytes → String) (n : ℕ) (cid : String) (prev : Option String) (values : List A)
      (bs : List Bytes)
      → Encodes codec values bs
      → n + length values ≤ max_safe_integer
      → advance_each codec (some (v1 n cid prev)) (ResolvedNodeVersioningPolicy.hashed hash) values
        ≡ ok (
            some (
              v1
                (n + length values)
                (newest cid (cids hash bs))
                (second_newest prev cid (cids hash bs))))
  unfolding advance_each advance_node_version hash_node_data counter
  chains_content hash n cid prev [] [] e h = ap (λ k. ok (some (v1 k cid prev))) (omega arith)
  chains_content hash n cid prev [] (b ∷ bs) e h = absurd e
  chains_content hash n cid prev (v ∷ vs) [] e h = absurd e
  chains_content hash n cid prev (v ∷ vs) (b ∷ bs) e h =
      rw (next_counter-next (v1 n cid prev) (omega (arith, h)), e.0)
        (chains_content hash (n + 1) (hash b) (some cid) vs bs e.1 (omega (arith, h))
          ∙ ap
              (λ k. ok (
                some (
                  v1 k (newest (hash b) (cids hash bs))
                    (second_newest (some cid) (hash b) (cids hash bs)))))
              (omega arith))
