-- ===== src/Node/Steps.antt =====
-- Steps of a node that may panic. A panic keeps what was written before it.
use graphrefly_rs.Prelude.{Bool, List, [], ◌∷◌, ◌++◌, if◌then◌else◌}
use graphrefly_rs.Protocol.{Message}
use graphrefly_rs.Node.State.{NodeState, Effect}

pub data Exit : Type 0 where
  returned panicked : Exit

module _ {ℓ} {A : Type ℓ} where
  abbrev pub resume_with :
      Exit → (NodeState A → NodeState A × Exit) → NodeState A → NodeState A × Exit
  resume_with Exit.returned k n = k n
  resume_with Exit.panicked k n = (n, Exit.panicked)

  abbrev pub done : NodeState A → NodeState A × Exit
  done n = (n, Exit.returned)

  -- One step, then another if the first returned.
  abbrev pub followed_by :
      NodeState A × Exit → (NodeState A → NodeState A × Exit) → NodeState A × Exit
  followed_by (n, e) k = resume_with e k n

  abbrev pub when : Bool → (NodeState A → NodeState A × Exit) → NodeState A → NodeState A × Exit
  when b k n = if b then k n else (n, Exit.returned)

  -- Adds to the record of what the node has done.
  abbrev pub perform : List (Effect A) → NodeState A → NodeState A
  perform es n = record n { effects = n.effects ++ es }

  abbrev pub send : Message A → NodeState A → NodeState A
  send m n = record n { effects = n.effects ++ Effect.sent m ∷ [] }
