-- ===== src/Node/Pause/Lockset.antt =====
-- The pause lockset as a set of locks, under PAUSE and RESUME.
use graphrefly_rs.Prelude.{
  ◌≡◌, refl, ap, subst, ◌∙◌, Bool, true, false, not, ◌&&◌, ◌||◌, inl, inr, Bool-cases, List, [],
  ◌∷◌, arith, str_eq, eq_iff, is_nil, is_some, if◌then◌else◌,
}
use graphrefly_rs.Protocol.{LockId}
use graphrefly_rs.Node.State.{NodeState, Delivery}
use graphrefly_rs.Node.Steps.{Exit, done, followed_by}
use graphrefly_rs.Node.Gates.{can_fire_demand}
use graphrefly_rs.Node.Run.{NodeFn}
use graphrefly_rs.Node.Pause.{
  holds_lock, insert_lock, remove_lock, pause_acquire, pause_release, set_locks,
  fire_owed_demand_if_ready,
}

pub holds-insert :
    (l j : LockId) (ks : List LockId)
    → holds_lock j (insert_lock l ks) ≡ (str_eq l j || holds_lock j ks)
unfolding insert_lock holds_lock
holds-insert l j ks = ground (arith, eq_iff l j)

pub holds-remove :
    (l j : LockId) (ks : List LockId)
    → holds_lock j (remove_lock l ks) ≡ (not (str_eq l j) && holds_lock j ks)
unfolding remove_lock holds_lock
holds-remove l j [] = ground arith
holds-remove l j (k ∷ ks) = ground (arith, holds-remove l j ks, eq_iff k l, eq_iff k j, eq_iff l j)

holds-nonempty : (l : LockId) (ks : List LockId) → holds_lock l ks ≡ true → is_nil ks ≡ false
unfolding holds_lock
holds-nonempty l [] h = ground arith
holds-nonempty l (k ∷ ks) h = refl

or_as_if : (a b : Bool) → (a || b) ≡ (if a then true else b)
or_as_if true b = refl
or_as_if false b = refl

and_as_if : (a b : Bool) → (not a && b) ≡ (if a then false else b)
and_as_if true b = refl
and_as_if false b = refl

holds-unknown :
    (l j : LockId) (ks : List LockId)
    → holds_lock l ks ≡ false
    → holds_lock j ks ≡ (if str_eq l j then false else holds_lock j ks)
holds-unknown l j ks h = elim (Bool-cases (str_eq l j)) [
  | inl same ↦ rw (same) (subst (λ x. holds_lock x ks ≡ false) ((eq_iff l j).0 same) h)
  | inr other ↦ rw (other) refl
]

-- A call takes a lock, or releases one.
abbrev pub LockCall : Type 0
LockCall = Bool × LockId

-- Whether a lock is held after some calls: what the last one about it says.
abbrev pub held_after : LockId → Bool → List LockCall → Bool
held_after j before [] = before
held_after j before ((takes, l) ∷ cs) = held_after j (if str_eq l j then takes else before) cs

abbrev pub never_releases : LockId → List LockCall → Bool
never_releases k [] = true
never_releases k ((takes, l) ∷ cs) = (takes || not (str_eq l k)) && never_releases k cs

module _ {ℓ} {A : Type ℓ} (fn : NodeFn A) (d : Delivery) where
  -- PAUSE or RESUME under a lock.
  abbrev pub lock_call : LockCall → NodeState A → NodeState A × Exit
  lock_call (true, l) n = done (pause_acquire l n)
  lock_call (false, l) n = pause_release fn d l n

  abbrev pub lock_calls : List LockCall → NodeState A → NodeState A × Exit
  lock_calls [] n = done n
  lock_calls (c ∷ cs) n = followed_by (lock_call c n) (lock_calls cs)

  no_demand :
      (n : NodeState A)
      → is_some n.config.pull_id ≡ false
      → fire_owed_demand_if_ready fn d n ≡ done n
  unfolding fire_owed_demand_if_ready can_fire_demand
  no_demand n quiet = ground arith

  release_one :
      (l k : LockId) (n : NodeState A)
      → is_some n.config.pull_id ≡ false
      → holds_lock l n.aux.pause_lockset ≡ true
      → holds_lock k (remove_lock l n.aux.pause_lockset) ≡ true
      → pause_release fn d l n ≡ done (set_locks (remove_lock l n.aux.pause_lockset) n)
  unfolding pause_release
  release_one l k n quiet held other =
      rw (held, holds-nonempty k (remove_lock l n.aux.pause_lockset) other, pause_release)
        (no_demand (set_locks (remove_lock l n.aux.pause_lockset) n) quiet)

  release_unknown :
      (l : LockId) (n : NodeState A)
      → holds_lock l n.aux.pause_lockset ≡ false
      → pause_release fn d l n ≡ done n
  unfolding pause_release
  release_unknown l n h = rw (h, pause_release)

  kept :
      (l k : LockId) (n : NodeState A)
      → holds_lock k n.aux.pause_lockset ≡ true
      → not (str_eq l k) ≡ true
      → holds_lock k (remove_lock l n.aux.pause_lockset) ≡ true
  kept l k n held keeps = holds-remove l k n.aux.pause_lockset ∙ rw (held, keeps) refl

  -- What one call leaves while another lock is held.
  record Calls (c : LockCall) (n : NodeState A) : Type ℓ where
    left : List LockId
    result : lock_call c n ≡ done (set_locks left n)
    holds :
        (j : LockId)
        → holds_lock j left ≡ (if str_eq c.1 j then c.0 else holds_lock j n.aux.pause_lockset)

  call-Calls :
      (c : LockCall) (k : LockId) (n : NodeState A)
      → is_some n.config.pull_id ≡ false
      → holds_lock k n.aux.pause_lockset ≡ true
      → (c.0 || not (str_eq c.1 k)) ≡ true
      → Calls c n
  unfolding pause_acquire
  call-Calls (true, l) k n quiet held keeps = record {
    left = insert_lock l n.aux.pause_lockset;
    result = refl;
    holds = λ j.
        holds-insert l j n.aux.pause_lockset
        ∙ or_as_if (str_eq l j) (holds_lock j n.aux.pause_lockset);
  }
  call-Calls (false, l) k n quiet held keeps =
      elim (Bool-cases (holds_lock l n.aux.pause_lockset)) [
        | inl known ↦ record {
          left = remove_lock l n.aux.pause_lockset;
          result = release_one l k n quiet known (kept l k n held keeps);
          holds = λ j.
              holds-remove l j n.aux.pause_lockset
              ∙ and_as_if (str_eq l j) (holds_lock j n.aux.pause_lockset);
        }
        | inr unknown ↦ record {
          left = n.aux.pause_lockset;
          result = release_unknown l n unknown;
          holds = λ j. holds-unknown l j n.aux.pause_lockset unknown;
        }
      ]

  still_held :
      (c : LockCall) (k : LockId) (n : NodeState A)
      → holds_lock k n.aux.pause_lockset ≡ true
      → (c.0 || not (str_eq c.1 k)) ≡ true
      → (if str_eq c.1 k then c.0 else holds_lock k n.aux.pause_lockset) ≡ true
  still_held (takes, l) k n held keeps = ground (arith, held, keeps)

  -- While a lock is held that no call releases, PAUSE and RESUME under any locks, in any order, on a
  -- node that is no pull node, all return and change the lockset alone; and afterwards a lock is held
  -- exactly if the last call about it was a PAUSE, or there was none and it was held before.
  pub locks_nest :
      (k j : LockId) (cs : List LockCall) (n : NodeState A)
      → is_some n.config.pull_id ≡ false
      → holds_lock k n.aux.pause_lockset ≡ true
      → never_releases k cs ≡ true
      → (ks : List LockId) × (lock_calls cs n ≡ done (set_locks ks n))
        × (holds_lock j ks ≡ held_after j (holds_lock j n.aux.pause_lockset) cs)
  locks_nest k j [] n quiet held never = (n.aux.pause_lockset, refl, refl)
  locks_nest k j (c ∷ cs) n quiet held never =
      let one = call-Calls c k n quiet held (ground (arith, never)) in
      let (ks, e, h) =
        locks_nest k j cs (set_locks one.left n) quiet
          (one.holds k ∙ still_held c k n held (ground (arith, never))) (ground (arith, never)) in
      (
        ks,
        ap (λ r. followed_by r (lock_calls cs)) one.result ∙ e,
        h ∙ ap (λ b. held_after j b cs) (one.holds j),
      )
