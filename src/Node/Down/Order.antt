-- ===== src/Node/Down/Order.antt =====
-- The order in which a wave goes out, by the kinds of its messages: the sort by tier and the collapse
-- of INVALIDATE in `Core::down` of crates/graphrefly/src/node.rs, with the tiers of
-- crates/graphrefly/src/protocol.rs.
use graphrefly_rs.Prelude.{ℕ, Bool, true, false, [], ◌∷◌, ◌++◌, keep, any, leb, if◌then◌else◌}
use graphrefly_rs.Protocol.{Message, Wave}
use graphrefly_rs.Node.Sorting.{rank, is_invalidate}
use graphrefly_rs.Node.Sorting.Stable.{of_rank}

module _ {ℓ} {A : Type ℓ} where
  -- The kinds of message, in the order in which they go out.
  abbrev pub is_start : Message A → Bool
  is_start Message.start = true
  is_start _ = false

  abbrev pub is_control : Message A → Bool
  is_control (Message.pause l) = true
  is_control (Message.resume l) = true
  is_control (Message.pull p) = true
  is_control _ = false

  abbrev pub is_dirty : Message A → Bool
  is_dirty Message.dirty = true
  is_dirty _ = false

  abbrev pub is_value : Message A → Bool
  is_value (Message.datum v) = true
  is_value Message.resolved = true
  is_value _ = false

  abbrev pub is_ending : Message A → Bool
  is_ending Message.complete = true
  is_ending (Message.error e) = true
  is_ending _ = false

  abbrev pub is_last : Message A → Bool
  is_last Message.teardown = true
  is_last _ = false

  abbrev pub one_invalidate : Wave A → Wave A
  one_invalidate ms = if any is_invalidate ms then Message.invalidate ∷ [] else []

  -- A wave put in order.
  abbrev pub in_order : Wave A → Wave A
  in_order ms =
      keep is_start ms
      ++ (keep is_control ms
          ++ (keep is_dirty ms
              ++ (keep is_value ms
                  ++ (one_invalidate ms ++ (keep is_ending ms ++ keep is_last ms)))))

  abbrev from_rank : ℕ → Wave A → Wave A
  from_rank k ms = keep (λ m. leb k (rank m)) ms

  abbrev ranked : Wave A → Wave A
  ranked ms =
      of_rank 0 ms
      ++ (of_rank 1 ms
          ++ (of_rank 2 ms
              ++ (of_rank 3 ms ++ (of_rank 4 ms ++ (of_rank 5 ms ++ (of_rank 6 ms ++ []))))))

  abbrev by_kind : Wave A → Wave A
  by_kind ms =
      keep is_start ms
      ++ (keep is_control ms
          ++ (keep is_dirty ms
              ++ (keep is_value ms
                  ++ (keep is_invalidate ms ++ (keep is_ending ms ++ (keep is_last ms ++ []))))))
