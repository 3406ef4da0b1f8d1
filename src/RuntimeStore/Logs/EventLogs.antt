-- ===== src/RuntimeStore/Logs/EventLogs.antt =====
-- The events of a Run are numbered from 1 on without a gap, and none follows the end of its Run.
use mathlib.Core.Path.{subst, subst₂}
use tsagent.Prelude.{
  ℕ, suc, ◌<◌, String, ◌≡◌, true, false, Option, none, some, List, [], ◌∷◌, ◌++◌, refl, arith, ◌==◌,
  ◌&&◌, nat_eq, eq_iff, eq_refl, Option-cases, Bool-cases, inl, inr, sym,
}
use tsagent.Prelude.Lists.{select, All, All-append}
use tsagent.RuntimeStore.Sql.{fetch_one, greatest, update_where}
use tsagent.RuntimeStore.Sql.Laws.{
  map_option, fetch_one-update_where, fetch_one-append, fetch_one-met, fetch_one-none,
  select-append, greatest-append,
}
use tsagent.RuntimeStore.Tables.{
  Database, EventRow, EventHeadRow, Host, event_of, event_head_of, appended,
}
use tsagent.RuntimeStore.Events.{
  EventDraft, is_closed_to, with_event_head, first_event_head, event_row, blocks, latest_event,
}

-- An event may stand behind the type of the one before.
abbrev pub MayFollow : Option String → String → Type 0
MayFollow none next = Unit
MayFollow (some latest) next = is_closed_to latest next ≡ false

-- A list of events with its length and the type of its last event
pub data EventLog : List EventRow → ℕ → Option String → Type 0 where
  start : EventLog [] 0 none
  next :
      {es : List EventRow} {n : ℕ} {latest : Option String} (e : EventRow)
      → EventLog es n latest
      → e.event.sequence_number ≡ suc n
      → MayFollow latest e.event.event_type
      → EventLog (es ++ e ∷ []) (suc n) (some e.event.event_type)

-- the events of a Run in the order of their insertion
abbrev pub events_of : String → String → List EventRow → List EventRow
events_of tenant run rows = select (event_of tenant run) rows

abbrev sequence_of : Option EventHeadRow → ℕ
sequence_of none = 0
sequence_of (some h) = h.latest_sequence

-- `latest_sequence` of a Run, 0 where it has no row yet
abbrev pub latest_sequence_of : String → String → List EventHeadRow → ℕ
latest_sequence_of tenant run heads = sequence_of (fetch_one (event_head_of tenant run) heads)

-- The events of a Run are a log that ends at its `latest_sequence`.
abbrev pub HasLog : Database → String → String → Type 0
HasLog db tenant run =
    (latest : Option String) × EventLog (events_of tenant run db.run_events)
      (latest_sequence_of tenant run db.run_event_heads) latest

EventLog-bounded :
    {es : List EventRow} {n : ℕ} {latest : Option String}
    → EventLog es n latest
    → (m : ℕ) → n < m
    → All (λ e. e.event.sequence_number < m) es
EventLog-bounded start m b = tt
EventLog-bounded (next {es} e l q f) m b =
    All-append (λ x. x.event.sequence_number < m) es (e ∷ []) (EventLog-bounded l m (omega arith))
      (omega arith, tt)

-- The event with the greatest number is the last one.
EventLog-greatest :
    {es : List EventRow} {n : ℕ} {latest : Option String}
    → EventLog es n latest
    → map_option (λ e. e.event.event_type) (greatest (λ e. e.event.sequence_number) es) ≡ latest
unfolding greatest
EventLog-greatest start = refl
EventLog-greatest (next {es} {n} e l q f) = rw (
    greatest-append (λ x. x.event.sequence_number) es e
      (EventLog-bounded l e.event.sequence_number (omega arith)))

-- the heads behind the append of an event
abbrev advanced_heads : Host → EventDraft → ℕ → List EventHeadRow → List EventHeadRow
advanced_heads host d n heads =
    update_where (λ h. event_head_of d.tenant_id d.run_id h && nat_eq h.latest_sequence n)
      (λ h. record h { latest_sequence = suc n; updated_at = host.now (appended d.run_id) }) heads

module _ (host : Host) (d : EventDraft) (tenant run : String) where
  -- The row that the call may add is that of its own Run.
  added_elsewhere :
      (heads : List EventHeadRow)
      → (d.tenant_id == tenant && d.run_id == run) ≡ false
      → fetch_one (event_head_of tenant run) (with_event_head host d heads)
        ≡ fetch_one (event_head_of tenant run) heads
  added_elsewhere heads other =
      ground (arith, fetch_one-append (event_head_of tenant run) heads (first_event_head host d))

  -- A row of one Run is none of another.
  apart :
      (h : EventHeadRow)
      → (d.tenant_id == tenant && d.run_id == run) ≡ false
      → event_head_of tenant run h ≡ true
      → event_head_of d.tenant_id d.run_id h ≡ false
  apart h other met = ground (
    arith,
    eq_iff h.tenant_id d.tenant_id,
    eq_iff h.tenant_id tenant,
    eq_iff d.tenant_id tenant,
    eq_iff h.run_id d.run_id,
    eq_iff h.run_id run,
    eq_iff d.run_id run,
  )

  -- Another Run keeps its number.
  latest_elsewhere :
      (n : ℕ) (heads : List EventHeadRow)
      → (d.tenant_id == tenant && d.run_id == run) ≡ false
      → latest_sequence_of tenant run (advanced_heads host d n (with_event_head host d heads))
        ≡ latest_sequence_of tenant run heads
  latest_elsewhere n heads other =
      let all = with_event_head host d heads in
      elim (Option-cases (fetch_one (event_head_of tenant run) all)) [
        | inl e ↦ ground (
          arith,
          added_elsewhere heads other,
          fetch_one-update_where (event_head_of tenant run)
              (λ h. event_head_of d.tenant_id d.run_id h && nat_eq h.latest_sequence n)
              (λ h. record h { latest_sequence = suc n; updated_at = host.now (appended d.run_id) })
              all (λ h. refl),
        )
        | inr (h, e) ↦ ground (
          arith,
          added_elsewhere heads other,
          apart h other (fetch_one-met (event_head_of tenant run) all h e),
          fetch_one-update_where (event_head_of tenant run)
              (λ h. event_head_of d.tenant_id d.run_id h && nat_eq h.latest_sequence n)
              (λ h. record h { latest_sequence = suc n; updated_at = host.now (appended d.run_id) })
              all (λ h. refl),
        )
      ]

  -- The Run of the event counts one more.
  latest_here :
      (n : ℕ) (heads : List EventHeadRow) (h : EventHeadRow)
      → fetch_one (event_head_of d.tenant_id d.run_id) (with_event_head host d heads) ≡ some h
      → latest_sequence_of d.tenant_id d.run_id heads ≡ h.latest_sequence
  latest_here n heads h found = ground (
    arith,
    fetch_one-append (event_head_of d.tenant_id d.run_id) heads (first_event_head host d),
    fetch_one-none (event_head_of d.tenant_id d.run_id) heads,
  )

  -- and its row then says so.
  latest_counted :
      (heads : List EventHeadRow) (h : EventHeadRow)
      → fetch_one (event_head_of d.tenant_id d.run_id) heads ≡ some h
      → latest_sequence_of d.tenant_id d.run_id (advanced_heads host d h.latest_sequence heads)
        ≡ suc h.latest_sequence
  latest_counted heads h found = ground (
    arith,
    fetch_one-met (event_head_of d.tenant_id d.run_id) heads h found,
    fetch_one-update_where (event_head_of d.tenant_id d.run_id)
        (λ x. event_head_of d.tenant_id d.run_id x && nat_eq x.latest_sequence h.latest_sequence)
        (λ x. record x {
          latest_sequence = suc h.latest_sequence;
          updated_at = host.now (appended d.run_id);
        })
        heads (λ x. refl),
  )

  -- What is not blocked by the last event may follow the log.
  unblocked-MayFollow :
      {es : List EventRow} {n : ℕ} {latest : Option String}
      → EventLog es n latest
      → blocks (greatest (λ e. e.event.sequence_number) es) d.event_type ≡ false
      → MayFollow latest d.event_type
  unblocked-MayFollow {es} l free =
      subst (λ o. MayFollow o d.event_type) (EventLog-greatest l)
        (elim (greatest (λ e. e.event.sequence_number) es)
            as (λ o.
              blocks o d.event_type ≡ false
              → MayFollow (map_option (λ e. e.event.event_type) o) d.event_type) [
                | none ↦ λ b. tt
                | some e ↦ λ b. b
              ]
          free)

-- The database behind the insertion of an event
abbrev pub stored_event : Host → EventDraft → Database → EventHeadRow → Database
stored_event host d db h = record db {
  run_event_heads =
      advanced_heads host d h.latest_sequence (with_event_head host d db.run_event_heads);
  run_events = db.run_events ++ event_row host d (suc h.latest_sequence) ∷ [];
}

module _ (host : Host) (d : EventDraft) (db : Database) (h : EventHeadRow)
    (found : fetch_one
        (event_head_of d.tenant_id d.run_id)
        (with_event_head host d db.run_event_heads)
      ≡ some h)
    (free : blocks (latest_event db d) d.event_type ≡ false) where
  stored_here :
      HasLog db d.tenant_id d.run_id → HasLog (stored_event host d db h) d.tenant_id d.run_id
  stored_here (latest, l) =
      let row = event_row host d (suc h.latest_sequence) in
      let counted = latest_here host d d.tenant_id d.run_id 0 db.run_event_heads h found in
      let l' =
        subst (λ n. EventLog (events_of d.tenant_id d.run_id db.run_events) n latest) counted l in
      (
        some d.event_type,
        subst₂ (λ es n. EventLog es n (some d.event_type))
            (ground (
              arith,
              select-append (event_of d.tenant_id d.run_id) db.run_events row,
              eq_refl d.tenant_id,
              eq_refl d.run_id,
            ))
            (sym (
              latest_counted host d d.tenant_id d.run_id (with_event_head host d db.run_event_heads)
                h found))
            (next row l' refl (unblocked-MayFollow host d d.tenant_id d.run_id l' free)),
      )

  stored_elsewhere :
      (tenant run : String)
      → (d.tenant_id == tenant && d.run_id == run) ≡ false
      → HasLog db tenant run
      → HasLog (stored_event host d db h) tenant run
  stored_elsewhere tenant run other (latest, l) = (
    latest,
    subst₂ (λ es n. EventLog es n latest)
        (ground (
          arith,
          select-append (event_of tenant run) db.run_events
              (event_row host d (suc h.latest_sequence)),
        ))
        (sym (latest_elsewhere host d tenant run h.latest_sequence db.run_event_heads other)) l,
  )

  pub stored-HasLog :
      (tenant run : String)
      → HasLog db d.tenant_id d.run_id
      → HasLog db tenant run
      → HasLog (stored_event host d db h) tenant run
  stored-HasLog tenant run here there =
      elim (Bool-cases (d.tenant_id == tenant && d.run_id == run)) [
        | inl e ↦
            subst₂ (λ t r. HasLog (stored_event host d db h) t r)
              (ground (arith, eq_iff d.tenant_id tenant)) (ground (arith, eq_iff d.run_id run))
              (stored_here here)
        | inr e ↦ stored_elsewhere tenant run e there
      ]

-- The logs of all Runs
abbrev pub HasLogs : Database → Type 0
HasLogs db = (tenant run : String) → HasLog db tenant run
