-- ===== src/Tests/Delivering.antt =====
-- The theorems on the outbox and on the worker's pass, applied to one announcement and one channel.
use announcement_tool.Common.{
  ℕ, true, false, ◌≡◌, ◌↔◌, refl, inl, In, List, [], ◌∷◌, some, none, codes, arith, ◌+◌, ◌-◌, inr,
  Text, update_where, sort_by, insert_by, text_eq,
}
use announcement_tool.Types.{publish, discord, DeliveryTarget}
use announcement_tool.Store.{LedgerRow, failed}
use announcement_tool.Outbox.{has_key, enqueue_deliveries, count_fanout_targets}
use announcement_tool.Outbox.Enqueue.{
  Enqueued, enqueue_deliveries-Enqueued, enqueue_deliveries_twice,
}
use announcement_tool.Outbox.Targets.{Reaches, count_fanout_targets_iff}
use announcement_tool.Announcements.Table.{find_row}
use announcement_tool.EnabledChannels.{is_channel_enabled}
use announcement_tool.Fanout.{
  Adapters, resolves, due_rows, run_fanout_once, set_attempted, minute, process_all, process_row,
  attempt, set_ledger, publish_note,
}
use announcement_tool.Fanout.Machine.{RowOk, fail_all, exhausted_after_five}
use announcement_tool.Fanout.Rounds.{Rounds}
use announcement_tool.Fanout.Batch.{
  run_fanout_once-Rounds, run_fanout_once-RowOk, run_fanout_once-rest, comes_later,
}
use announcement_tool.Tests.Scenario.{start, channels, noon, sent, main_delivery, with_delivery}

enqueue_deliveries-Enqueued_example :
    Enqueued noon sent publish
      (count_fanout_targets channels start sent)
      start.delivery_ledger
      (enqueue_deliveries noon channels sent publish start).0.delivery_ledger
      (enqueue_deliveries noon channels sent publish start).1
enqueue_deliveries-Enqueued_example = enqueue_deliveries-Enqueued noon sent publish channels start

enqueue_deliveries_twice_example :
    enqueue_deliveries
      (noon + 1)
      channels
      sent
      publish
      (enqueue_deliveries noon channels sent publish start).0
    ≡ ((enqueue_deliveries noon channels sent publish start).0, 0)
enqueue_deliveries_twice_example =
    enqueue_deliveries_twice noon (noon + 1) sent publish channels start

abbrev main_target : DeliveryTarget
main_target = record { channel = discord; target = codes "main" }

count_fanout_targets_iff_example :
    In main_target (count_fanout_targets channels start sent)
    ↔ ((is_channel_enabled channels main_target.channel ≡ true) × Reaches sent start main_target)
count_fanout_targets_iff_example = count_fanout_targets_iff channels start sent main_target

-- A world that counts the deliveries, and a channel that always takes them.
abbrev pub counting : Adapters ℕ
counting = record { known = channels; at = λ _. some (λ a t k n. (resolves none, n + 1)) }

run_fanout_once-Rounds_example :
    Rounds noon true counting with_delivery.announcements
      (due_rows noon true counting (λ _. false) 50 with_delivery)
      0
      (run_fanout_once noon true counting (λ _. false) 50 with_delivery 0).world
      with_delivery.delivery_ledger
      (run_fanout_once noon true counting (λ _. false) 50 with_delivery 0).db.delivery_ledger
run_fanout_once-Rounds_example =
    run_fanout_once-Rounds noon true counting (λ _. false) 50 with_delivery 0 (λ e. cc) (tt, tt)

delivery_RowOk : (r : LedgerRow) → In r with_delivery.delivery_ledger → RowOk r
delivery_RowOk r (inl e) = rw e (refl, refl)
delivery_RowOk r (inr m) = absurd m

-- The row that the pass delivers.
abbrev delivered_row : LedgerRow
delivered_row = set_attempted noon true main_delivery (resolves none) main_delivery

delivered_In :
    In delivered_row
      (run_fanout_once noon true counting (λ _. false) 50 with_delivery 0).db.delivery_ledger
unfolding run_fanout_once due_rows process_all process_row attempt set_ledger set_attempted
    update_where sort_by insert_by find_row has_key text_eq publish_note
delivered_In = inl refl

run_fanout_once-RowOk_example : RowOk delivered_row
run_fanout_once-RowOk_example =
    run_fanout_once-RowOk noon true counting (λ _. false) 50 with_delivery 0 (tt, tt) delivery_RowOk
      delivered_row delivered_In

-- A minute before the row is due.
run_fanout_once-rest_example :
    In main_delivery
      (run_fanout_once
        (noon - minute)
        true
        counting
        (λ _. false)
        50
        with_delivery
        0).db.delivery_ledger
run_fanout_once-rest_example =
    run_fanout_once-rest (noon - minute) true counting (λ _. false) 50 with_delivery 0 main_delivery
      (tt, tt) (inl refl) (comes_later (omega arith))

abbrev tries : List (ℕ × Text)
tries = (noon, codes "timeout") ∷ (noon + minute, codes "timeout") ∷ []

exhausted_after_five_example :
    ((fail_all true tries main_delivery).attempts ≡ 2)
    × ((fail_all true tries main_delivery).status ≡ failed)
exhausted_after_five_example =
    exhausted_after_five true tries main_delivery refl (omega arith) (omega arith)
