-- ===== src/Tests/Payments.antt =====
-- The watcher and its consumer, and the check of the boards.
use dogecade.Common.{
  All, Bool, String, [], arith, none, pos, refl, true, ℕ, ℤ, ◌*ℤ◌, ◌==◌, ◌∷◌, ◌≡◌,
}
use dogecade.Store.{Board, Db, calm, confirmed, ok}
use dogecade.DirectPay.{direct_pay_aware_credit_hook}
use dogecade.Deposits.StateMachine.{Evolves, distinct_ids}
use dogecade.Chain.{
  Backend, Float64, ListSinceBlockResult, Pipeline, TransactionInfo, idle, take_event, watch,
}
use dogecade.Chain.Run.{Run, cursor_in, handles, here, more, start, watches}
use dogecade.Chain.Delivery.{Delivered, events}
use dogecade.Chain.Reached.{start-Delivered}
use dogecade.Chain.Evolution.{Run-Evolves}
use dogecade.Chain.Poll.{poll-completes, rounds, with_cursor}
use dogecade.BoardHealth.{check_all_boards}
use dogecade.BoardHealth.Reported.{IsReported, check_all_boards-IsReported}
use dogecade.Tests.{arcade, day}

-- Whole coins for amounts.
abbrev coins : Float64
coins = record {
  Carrier = ℤ;
  times = λ a b. a *ℤ b;
  round = λ a. a;
  int64 = λ a. a;
  one_e8 = pos 100_000_000;
}

abbrev line : String → String → TransactionInfo ℤ
line category txid = record {
  address = "DPlayer";
  category = category;
  amount = pos 2;
  confirmations = pos 3;
  txid = txid;
  vout = 0;
  block_height = pos 0;
  block_index = pos 7;
}

-- Two payments, something else between them, and one that is gone.
abbrev answer : ListSinceBlockResult ℤ
answer = record {
  transactions = line "receive" "aa" ∷ line "send" "bb" ∷ line "receive" "cc" ∷ [];
  removed = line "receive" "dd" ∷ [];
  last_block = b'h' ∷ [];
}

abbrev node : Backend ℤ
node = record { list_since_block = λ cursor. ok answer; get_block_hash = λ height. ok (b'g' ∷ []) }

abbrev begun : Pipeline ℤ
begun = watch coins node (start day)

abbrev one_sent : Pipeline ℤ
one_sent = watch coins node begun

abbrev one_handled : Pipeline ℤ
one_handled = take_event direct_pay_aware_credit_hook 50 50 one_sent.notify_ch one_sent

run : Run coins direct_pay_aware_credit_hook (start day) one_handled
run =
    more (more (more here (watches node (start day))) (watches node begun)) (handles 50 50 one_sent)

start-Delivered_example : Delivered coins (cursor_in day.db) one_handled
start-Delivered_example = start-Delivered coins day one_handled run

Run-Evolves_example :
    (distinct_ids one_handled.world.db.deposits ≡ true)
    × Evolves day.db.deposits one_handled.world.db.deposits
Run-Evolves_example = Run-Evolves coins (start day) one_handled refl run

poll-completes_example :
    let s : Pipeline ℤ = rounds coins node 7 (start day) in
    (s.watcher ≡ idle)
    × (s.notify_ch ≡ events coins answer.transactions)
    × (s.removed_ch ≡ events coins answer.removed)
    × (s.world.db ≡ with_cursor (b'h' ∷ []) (arcade confirmed))
poll-completes_example =
    poll-completes coins node (arcade confirmed) 0 answer refl (omega arith) (omega arith)

abbrev board : ℕ → String → Board
board id name = record {
  id = id;
  name = name;
  base_url = "http";
  last_seen_at = none;
  is_active = true;
}

abbrev boards_up : Db
boards_up = record (arcade confirmed) { boards = board 1 "front" ∷ board 2 "back" ∷ [] }

-- The first answers, the second does not.
abbrev answers : Board → Bool
answers b = b.id == 1

check_all_boards-IsReported_example :
    ((check_all_boards answers (λ b. 60) (calm boards_up 0)).0 ≡ ok tt)
    × All
        (IsReported answers (λ b. 60) (check_all_boards answers (λ b. 60) (calm boards_up 0)).1.db)
        (board 1 "front" ∷ board 2 "back" ∷ [])
check_all_boards-IsReported_example = check_all_boards-IsReported answers (λ b. 60) boards_up 0 refl
