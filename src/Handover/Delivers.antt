-- ===== src/Handover/Delivers.antt =====
-- The numbers of outbox rows and the rows that are closed, through each operation on the outbox.
use warden_core.Prelude.{
  ℕ, ◌-◌, ◌≡◌, refl, ◌∙◌, sym, ap, Bool, true, false, not, ◌&&◌, some, List, [], ◌∷◌, ◌++◌, eqb,
  exists, select, arith, inl, inr, Option-cases,
}
use warden_core.Prelude.Search.{exists-narrow}
use warden_core.Model.{
  OutboxStatus, Topic, Hook, Message, OutboxRow, Claim, World, Env, row_is_completed,
}
use warden_core.Tx.{pure, reads, writes, ◌>>=◌, in_transaction}
use warden_core.Tx.Keeps.{Keeps, IsPreorder, keeps_rules, Keeps-raise}
use warden_core.Store.{post, insert_message, emit, hook, now, draw}
use warden_core.Delivery.Queue.{
  set_rows, is_waiting, is_among, is_stuck, has_status, poll, set_outbox_status, paired_round,
  reap_stale_in_progress_outbox_rows, stale_outbox_cutoff, oldest,
}
use warden_core.Handover.Numbered.{
  is_numbered, is_closed, numbered-update, numbered-append, one_row, closed-update, exists-never,
  select-spares,
}
use warden_core.Handover.Reap.{stuck_command, oldest-exists, paired_round-idle, paired_round-resets}

abbrev pub numbers_rows : World → Bool
numbers_rows w = is_numbered 0 w.posted w.outbox

-- The numbers stay in order, and closed rows stay closed.
pub record Delivers (w w' : World) : Type 0 where
  pub numbered : numbers_rows w ≡ true → numbers_rows w' ≡ true
  pub closed :
      numbers_rows w ≡ true
      → (i : ℕ) → exists (is_closed i) w.outbox ≡ true
      → exists (is_closed i) w'.outbox ≡ true

pub Delivers-order : IsPreorder Delivers
Delivers-order = record {
  reflexive = λ w. record { numbered = λ h. h; closed = λ h i c. c };
  transitive = λ a b. record {
    numbered = λ h. b.numbered (a.numbered h);
    closed = λ h i c. b.closed (a.numbered h) i (a.closed h i c);
  };
}

pub ruleset box_rules = (keeps_rules, Delivers-order)

pub Delivers-hook : (h : Hook) → Keeps Delivers (hook h)
unfolding hook writes
Delivers-hook h = record { at = λ w. record { numbered = λ n. n; closed = λ n i c. c } }

pub Delivers-claims :
    (f : World → List Claim) → Keeps Delivers (writes (λ w. record w { claims = f w }))
unfolding writes
Delivers-claims f = record { at = λ w. record { numbered = λ n. n; closed = λ n i c. c } }

pub Delivers-draw : (env : Env) → Keeps Delivers (draw env)
unfolding draw writes ◌>>=◌ reads pure
Delivers-draw env = record { at = λ w. record { numbered = λ n. n; closed = λ n i c. c } }

pub Delivers-now : Keeps Delivers now
unfolding now
Delivers-now = search box_rules

closed-append :
    (i : ℕ) (rs : List OutboxRow) (row : OutboxRow)
    → exists (is_closed i) rs ≡ true
    → exists (is_closed i) (rs ++ row ∷ []) ≡ true
unfolding exists
closed-append i [] row h = ground arith
closed-append i (r ∷ rs) row h = ground (arith, closed-append i rs row)

Delivers-post : (m : Message) → Keeps Delivers (writes (post m))
unfolding writes
Delivers-post m = record {
  at = λ w. record {
    numbered = λ n. numbered-append _ 0 w.posted w.outbox refl n;
    closed = λ n i c. closed-append i w.outbox _ c;
  };
}

Delivers-insert : (m : Message) → Keeps Delivers (insert_message m)
unfolding insert_message
Delivers-insert m = search (box_rules, Delivers-post)

pub Delivers-emit : (env : Env) (m : Message) → Keeps Delivers (emit env m)
unfolding emit
Delivers-emit env m = search (box_rules, Delivers-insert)

-- A change of status that picks no closed row.
set_rows-Delivers :
    (p : OutboxRow → Bool) (s : OutboxStatus) (w : World)
    → ((i : ℕ)
        → numbers_rows w ≡ true
        → exists (is_closed i) w.outbox ≡ true
        → exists (λ r. p r && is_closed i r) w.outbox ≡ false)
    → Delivers w (set_rows p s w).1
unfolding set_rows now ◌>>=◌ reads writes pure
set_rows-Delivers p s w spares = record {
  numbered = λ n. numbered-update p s w.now 0 w.posted w.outbox ∙ n;
  closed = λ n i c. closed-update p s w.now i w.outbox (spares i n c) c;
}

spared :
    (p : OutboxRow → Bool) (live : (r : OutboxRow) → p r ≡ true → row_is_completed r.status ≡ false)
    (n i : ℕ) (w : World)
    → numbers_rows w ≡ true
    → exists (is_closed i) w.outbox ≡ true
    → exists (λ r. exists (λ q. eqb q.id r.id) (select p n w.outbox) && is_closed i r) w.outbox
      ≡ false
spared p live n i w h c =
    let away = select-spares p live i n 0 w.posted w.outbox h c in
    let never =
      λ (r : OutboxRow)
          (k : (exists (λ q. eqb q.id r.id) (select p n w.outbox) && is_closed i r) ≡ true).
        let same : r.id ≡ i = ground arith in
        let hit : exists (λ q. eqb q.id r.id) (select p n w.outbox) ≡ true = ground arith in
        sym away ∙ ap (λ j. exists (λ q. eqb q.id j) (select p n w.outbox)) (sym same) ∙ hit in
    exists-never (λ r. exists (λ q. eqb q.id r.id) (select p n w.outbox) && is_closed i r) never
      w.outbox

pub Delivers-poll : (topic : Topic) (n : ℕ) → Keeps Delivers (poll topic n)
unfolding poll in_transaction ◌>>=◌ reads pure set_rows now writes
Delivers-poll topic n = record {
  at = λ w.
      set_rows-Delivers (is_among (select (is_waiting topic) n w.outbox)) OutboxStatus.in_progress w
        (λ i h c. spared (is_waiting topic) (λ r k. ground arith) n i w h c);
}

pub Delivers-close :
    (id : ℕ) (s : OutboxStatus)
    → Keeps Delivers (set_outbox_status id s (some OutboxStatus.in_progress))
unfolding set_outbox_status ◌>>=◌ reads pure set_rows now writes
Delivers-close id s = record {
  at = λ w.
      set_rows-Delivers (λ r. eqb r.id id && has_status (some OutboxStatus.in_progress) r) s w
        (λ i h c. exists-never _ (λ r k. ground arith) w.outbox);
}

pub Delivers-reap_rows :
    (env : Env) (topic : Topic) → Keeps Delivers (reap_stale_in_progress_outbox_rows env topic)
unfolding reap_stale_in_progress_outbox_rows stale_outbox_cutoff ◌>>=◌ reads pure set_rows now
    writes
Delivers-reap_rows env topic = record {
  at = λ w.
      let stuck = is_stuck topic (w.now - env.outbox_stale_seconds) in
      set_rows-Delivers (is_among (select stuck env.outbox_reap_batch_size w.outbox))
        OutboxStatus.pending w
        (λ i h c. spared stuck (λ r k. ground arith) env.outbox_reap_batch_size i w h c);
}

reset_spares :
    (cutoff i : ℕ) (c : OutboxRow) (w : World)
    → oldest (stuck_command cutoff) w.outbox ≡ some c
    → numbers_rows w ≡ true
    → exists (λ r. eqb r.id c.id && is_closed i r) w.outbox ≡ false
reset_spares cutoff i c w found h =
    exists-narrow (λ r. eqb r.id c.id && not (stuck_command cutoff r)) _ (λ r k. ground arith)
      w.outbox
      (one_row (stuck_command cutoff) c.id 0 w.posted w.outbox h
        (oldest-exists (stuck_command cutoff) (λ r. eqb r.id c.id) w.outbox found (ground arith)))

pub Delivers-paired_round : (cutoff : ℕ) → Keeps Delivers (paired_round cutoff)
Delivers-paired_round cutoff = record {
  at = λ w. elim (Option-cases (oldest (stuck_command cutoff) w.outbox)) [
    | inl idle ↦ rw (paired_round-idle cutoff w idle) (Delivers-order.reflexive w)
    | inr (c, found) ↦
        let (w', e, rows, posted) = paired_round-resets cutoff c w found in
        rw e (record {
          numbered = λ n.
              rw (rows, posted)
                (numbered-update (λ r. eqb r.id c.id) OutboxStatus.pending w.now 0 w.posted w.outbox
                  ∙ n);
          closed = λ n i k. rw rows (
              closed-update (λ r. eqb r.id c.id) OutboxStatus.pending w.now i w.outbox
                (reset_spares cutoff i c w found n) k);
        })
  ];
}
