-- ===== src/Handover/Guarded.antt =====
-- The relation Guards between the claims before and after a transaction of a worker or of maintenance.
use warden_core.Prelude.{String, ◌≡◌, refl, Bool, true, false, List, exists}
use warden_core.Model.{Hook, Message, OutboxRow, OutboxStatus, World, Env}
use warden_core.Tx.{Tx, pure, reads, writes, ◌>>=◌}
use warden_core.Tx.Keeps.{Keeps, IsPreorder, keeps_rules}
use warden_core.Store.{post, insert_message, emit, hook, now, draw}
use warden_core.Delivery.Queue.{set_rows}
use warden_core.Handover.Claims.{is_unique_claims, is_finished}

-- The claims are apart by key, and those that are finished stay.
pub record Guards (w w' : World) : Type 0 where
  pub unique : is_unique_claims w.claims ≡ true → is_unique_claims w'.claims ≡ true
  pub kept :
      is_unique_claims w.claims ≡ true
      → (k : String) → exists (is_finished k) w.claims ≡ true
      → exists (is_finished k) w'.claims ≡ true

pub Guards-order : IsPreorder Guards
Guards-order = record {
  reflexive = λ w. record { unique = λ u. u; kept = λ u k h. h };
  transitive = λ a b. record {
    unique = λ u. b.unique (a.unique u);
    kept = λ u k h. b.kept (a.unique u) k (a.kept u k h);
  };
}

-- The same as long as no finished claim is on one key, which then stays so.
pub record GuardsOpen (k : String) (w w' : World) : Type 0 where
  pub open_still :
      exists (is_finished k) w.claims ≡ false → exists (is_finished k) w'.claims ≡ false
  pub guards : exists (is_finished k) w.claims ≡ false → Guards w w'

pub GuardsOpen-order : (k : String) → IsPreorder (GuardsOpen k)
GuardsOpen-order k = record {
  reflexive = λ w. record { open_still = λ h. h; guards = λ h. Guards-order.reflexive w };
  transitive = λ a b. record {
    open_still = λ h. b.open_still (a.open_still h);
    guards = λ h. Guards-order.transitive (a.guards h) (b.guards (a.open_still h));
  };
}

-- Claims that are left alone.
pub record SameClaims (w w' : World) : Type 0 where
  pub same : w'.claims ≡ w.claims

pub SameClaims-order : IsPreorder SameClaims
SameClaims-order = record {
  reflexive = λ w. record { same = refl };
  transitive = λ a b. record { same = rw (b.same) a.same };
}

SameClaims-Guards : {w w' : World} → SameClaims w w' → Guards w w'
SameClaims-Guards h = record { unique = λ u. rw h.same u; kept = λ u k e. rw h.same e }

pub Guards-of : {A : Type 0} {m : Tx A} → Keeps SameClaims m → Keeps Guards m
Guards-of k = record { at = λ w. SameClaims-Guards (k.at w) }

pub GuardsOpen-of :
    {A : Type 0} {k : String} {m : Tx A} → Keeps SameClaims m → Keeps (GuardsOpen k) m
GuardsOpen-of s = record {
  at = λ w. record {
    open_still = λ h. rw (s.at w).same h;
    guards = λ h. SameClaims-Guards (s.at w);
  };
}

pub ruleset same_basics = (keeps_rules, SameClaims-order)

pub SameClaims-hook : (h : Hook) → Keeps SameClaims (hook h)
unfolding hook writes
SameClaims-hook h = record { at = λ w. record { same = refl } }

SameClaims-post : (m : Message) → Keeps SameClaims (writes (post m))
unfolding writes
SameClaims-post m = record { at = λ w. record { same = refl } }

pub SameClaims-outbox :
    (f : World → List OutboxRow) → Keeps SameClaims (writes (λ w. record w { outbox = f w }))
unfolding writes
SameClaims-outbox f = record { at = λ w. record { same = refl } }

SameClaims-insert : (m : Message) → Keeps SameClaims (insert_message m)
unfolding insert_message
SameClaims-insert m = search (same_basics, SameClaims-post)

pub SameClaims-emit : (env : Env) (m : Message) → Keeps SameClaims (emit env m)
unfolding emit
SameClaims-emit env m = search (same_basics, SameClaims-insert)

pub SameClaims-now : Keeps SameClaims now
unfolding now
SameClaims-now = search same_basics

pub SameClaims-draw : (env : Env) → Keeps SameClaims (draw env)
unfolding draw writes ◌>>=◌ reads pure
SameClaims-draw env = record { at = λ w. record { same = refl } }

pub SameClaims-set_rows :
    (p : OutboxRow → Bool) (s : OutboxStatus) → Keeps SameClaims (set_rows p s)
unfolding set_rows
SameClaims-set_rows p s = search (same_basics, SameClaims-now, SameClaims-outbox)

pub ruleset same_claims_rules = (
  same_basics, SameClaims-hook, SameClaims-emit, SameClaims-now, SameClaims-draw,
  SameClaims-set_rows,
)
