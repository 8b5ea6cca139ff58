-- ===== src/Ingest/Linked.antt =====
-- `link_people` of app/ingest.py: two people become one: what refers to the second is given to the
-- first.
use mathlib.Core.List.{Mem}
use moresocial.Ingest.Moved.{IsMoved}
use moresocial.Base.{
  Bool, ◌&&◌, exists_where, true, update_where, delete_where, false, All, some, select_where, map,
  ◌≡◌, ◌==◌, List, Uuid,
}
use moresocial.Ingest.{PersonIdentifier, EventPerson, Store}
use moresocial.Ingest.People.{id_in}

abbrev is_on : Uuid → Uuid → EventPerson → Bool
is_on event person x = x.event_id == event && x.person_id == person

-- The people on events: `other` is on none, `keep` is on every event that `other` was on, and every
-- row of another person, `keep` included, is as it was.
abbrev AreTaken : Uuid → Uuid → List EventPerson → List EventPerson → Type 0
AreTaken keep other before after =
    All (λ e. (e.person_id == other) ≡ false) after
    × All (λ e. (e.person_id == other) ≡ true → exists_where (is_on e.event_id keep) after ≡ true)
        before
    × All (λ e. (e.person_id == other) ≡ false → Mem e after) before

-- What a link of two people does to the rows that refer to either.
abbrev pub IsLinked : Uuid → Uuid → Store → Store → Type 0
IsLinked keep other db after =
    All (λ p. (p.id == other) ≡ false) after.people
    × IsMoved (λ i. i.id) (λ i. some i.person_id) keep other db.identifiers after.identifiers
    × IsMoved (λ x. x.id) (λ x. x.person_id) keep other db.participants after.participants
    × IsMoved (λ c. c.id) (λ c. c.person_id) keep other db.claims after.claims
    × IsMoved (λ n. n.id) (λ n. some n.person_id) keep other db.notes after.notes
    × IsMoved (λ d. d.id) (λ d. d.person_id) keep other db.drafts after.drafts
    × AreTaken keep other db.event_people after.event_people

abbrev events_of : Uuid → List EventPerson → List Uuid
events_of keep rows =
    map {A = EventPerson} {B = Uuid} (λ e. e.event_id)
      (select_where (λ e. e.person_id == keep) rows)

-- The loop, by the events that `keep` was on when it began.
abbrev moved_events : Uuid → Uuid → List Uuid → List EventPerson → List EventPerson
moved_events keep other kept rows =
    update_where (λ e. e.person_id == other) (λ e. record e { person_id = keep })
      (delete_where (λ e. e.person_id == other && id_in e.event_id kept) rows)

abbrev moved_identifiers : Uuid → Uuid → List PersonIdentifier → List PersonIdentifier
moved_identifiers keep other rows =
    update_where (λ i. i.person_id == keep) (λ i. record i { linked_by_user = true })
      (update_where (λ i. i.person_id == other)
        (λ i. record i { person_id = keep; linked_by_user = true }) rows)
