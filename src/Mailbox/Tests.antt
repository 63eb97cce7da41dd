-- ===== src/Mailbox/Tests.antt =====
-- The theorems on pkg/utils/mailbox at a mailbox of capacity 2.
use chainlink_common.Base.{ℕ, ◌≡◌, List, [], ◌∷◌}
use chainlink_common.Mailbox.Queue.{new}
use chainlink_common.Mailbox.Fifo.{
  Call, call_deliver, call_retrieve, call_retrieve_all, call_retrieve_latest_and_clear, calls,
  fifos, Holds, new-Holds, calls-refine,
}

-- The third message pushes the first one out.
abbrev some_calls : List (Call ℕ)
some_calls =
    call_deliver 1
    ∷ call_deliver 2
    ∷ call_deliver 3
    ∷ call_retrieve
    ∷ call_deliver 4
    ∷ call_retrieve_all
    ∷ call_retrieve_latest_and_clear
    ∷ []

calls-refine_example :
    ((calls some_calls (new 2)).1 ≡ (fifos 2 some_calls []).1)
    × Holds 2 (fifos 2 some_calls []).0 (calls some_calls (new 2)).0
calls-refine_example = calls-refine 2 some_calls [] (new 2) (new-Holds 2)
