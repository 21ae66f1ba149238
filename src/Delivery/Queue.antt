-- ===== src/Delivery/Queue.antt =====
-- common/messaging/postgres.py and common/outbox_reap.py: the consumer of a topic claims waiting
-- rows, hands them to its handler and records the end, and maintenance puts rows back that were in
-- delivery for too long. Each transaction is one action, so a row that another consumer has locked
-- (SKIP LOCKED) is a row whose status that consumer's action has changed. `UPDATE … LIMIT` takes
-- the oldest rows.
use warden_core.Prelude.{
  ℕ, zero, suc, ◌-◌, String, Bool, true, not, ◌&&◌, Option, none, some, List, [], ◌∷◌, ◌==◌, eqb,
  ltb, if◌then◌else◌, length, exists, keep, update_where, count_where, select,
}
use warden_core.Model.{
  OutboxStatus, Topic, worker_commands, orchestrator_events, Key, event_key, text_key, Message,
  OutboxRow, Claim, Env, row_is_pending, row_is_in_progress,
}
use warden_core.Tx.{
  Tx, Action, pure, reads, writes, ◌>>=◌, ◌>>◌, with_some, skip, in_transaction, attempt,
}
use warden_core.Store.{now, is_command}

abbrev pub on_topic : Topic → OutboxRow → Bool
on_topic worker_commands r = is_command r.message.payload
on_topic orchestrator_events r = not (is_command r.message.payload)

abbrev pub is_waiting : Topic → OutboxRow → Bool
is_waiting topic r = on_topic topic r && row_is_pending r.status

-- `id__in`
abbrev pub is_among : List OutboxRow → OutboxRow → Bool
is_among rows r = exists (λ q. eqb q.id r.id) rows

abbrev pub outbox_status_number : OutboxStatus → ℕ
outbox_status_number OutboxStatus.pending = 0
outbox_status_number OutboxStatus.in_progress = 1
outbox_status_number OutboxStatus.completed = 2
outbox_status_number OutboxStatus.failed = 3

abbrev pub has_status : Option OutboxStatus → OutboxRow → Bool
has_status none r = true
has_status (some s) r = eqb (outbox_status_number r.status) (outbox_status_number s)

-- `update(status=…, updated_at=now)` of the rows that pass
unfoldable pub set_rows : (OutboxRow → Bool) → OutboxStatus → Action
set_rows p s = do
  at ← now
  writes (λ w. record w {
    outbox = update_where p (λ r. record r { status = s; updated_at = at }) w.outbox;
  })

-- PostgresQueueConsumer._poll_and_dispatch, up to the start of the handlers: the rows that it claimed
unfoldable pub poll : Topic → ℕ → Tx (List OutboxRow)
poll topic batch_size = in_transaction (do
  rows ← reads (λ w. select (is_waiting topic) batch_size w.outbox)
  set_rows (is_among rows) OutboxStatus.in_progress
  pure rows)

-- PostgresQueueConsumer._set_outbox_status: the number of rows updated
unfoldable pub set_outbox_status : ℕ → OutboxStatus → Option OutboxStatus → Tx ℕ
set_outbox_status id status require_current = do
  let hit = λ (r : OutboxRow). eqb r.id id && has_status require_current r
  n ← reads (λ w. count_where hit w.outbox)
  set_rows hit status
  pure n

-- PostgresQueueConsumer._process_row
unfoldable pub process_row : (Message → Action) → OutboxRow → Action
process_row handler row = do
  ok ← attempt (handler row.message)
  _ ←
      set_outbox_status row.id (if ok then OutboxStatus.completed else OutboxStatus.failed)
        (some OutboxStatus.in_progress)
  skip

-- `status = IN_PROGRESS AND updated_at < cutoff`
abbrev pub is_stuck : Topic → ℕ → OutboxRow → Bool
is_stuck topic cutoff r = on_topic topic r && row_is_in_progress r.status && ltb r.updated_at cutoff

-- stale_outbox_cutoff
unfoldable pub stale_outbox_cutoff : Env → Tx ℕ
stale_outbox_cutoff env = do at ← now; pure (at - env.outbox_stale_seconds)

-- reap_stale_in_progress_outbox_rows
unfoldable pub reap_stale_in_progress_outbox_rows : Env → Topic → Tx ℕ
reap_stale_in_progress_outbox_rows env topic = do
  cutoff ← stale_outbox_cutoff env
  rows ← reads (λ w. select (is_stuck topic cutoff) env.outbox_reap_batch_size w.outbox)
  set_rows (is_among rows) OutboxStatus.pending
  pure (length rows)

abbrev pub earlier : OutboxRow → Option OutboxRow → OutboxRow
earlier r none = r
earlier r (some q) = if ltb q.updated_at r.updated_at then q else r

-- `ORDER BY updated_at LIMIT 1`
unfoldable pub oldest : (OutboxRow → Bool) → List OutboxRow → Option OutboxRow
oldest p [] = none
oldest p (r ∷ rs) = let rest = oldest p rs in if p r then some (earlier r rest) else rest

-- The deletion of the unfinished claim on a command's key.
abbrev pub is_unfinished_on : String → Claim → Bool
is_unfinished_on k c = c.idempotency_key == k && not c.result_emitted

abbrev pub evict_claim : Key → Action
evict_claim (text_key k) =
    if k == ""
    then skip
    else writes (λ w. record w { claims = keep (λ c. not (is_unfinished_on k c)) w.claims })
evict_claim (event_key t e i) = skip

pub data Round : Type 0 where
  stop again reset : Round

-- One round of reap_paired_worker_commands_outbox.
unfoldable pub paired_round : ℕ → Tx Round
paired_round cutoff = in_transaction (do
  found ← reads (λ w. oldest (is_stuck worker_commands cutoff) w.outbox)
  with_some found (pure stop) λ candidate.
      if not (ltb candidate.updated_at cutoff) then pure again else do
        evict_claim candidate.message.key
        set_rows (λ r. eqb r.id candidate.id) OutboxStatus.pending
        pure reset)

unfoldable pub paired_rounds : ℕ → ℕ → Tx ℕ
paired_rounds cutoff zero = pure 0
paired_rounds cutoff (suc n) = do
  round ← paired_round cutoff
  elim round [
    | stop ↦ pure 0
    | again ↦ paired_rounds cutoff n
    | reset ↦ (do reaped ← paired_rounds cutoff n; pure (suc reaped))
  ]

-- reap_paired_worker_commands_outbox
unfoldable pub reap_paired_worker_commands_outbox : Env → Tx ℕ
reap_paired_worker_commands_outbox env = do
  cutoff ← stale_outbox_cutoff env
  paired_rounds cutoff env.outbox_reap_batch_size
