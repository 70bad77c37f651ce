-- ===== src/StatusPage/Incidents.antt =====
-- internal/store/status_page.go: the public incidents and their updates. `now` is the clock of the
-- statement; the newest row stands first, as the queries ask for it.
use pantau.Common.{
  ℕ, ◌+◌, ◌≡◌, ◌≢◌, Bool, true, false, not, Option, none, some, List, [], ◌∷◌, ◌++◌, map, ◌==◌,
  if◌then◌else◌, keep, take, All, arith, Bool-cases, inl, inr,
}
use pantau.Common.Text.{Text, codes, teq, trim_space}

pub data Impact : Type 0 where
  none_impact minor major critical : Impact
  other_impact : Text → Impact

pub record IncidentUpdate : Type 0 where
  pub status : Text
  pub message : Text
  pub created_at : ℕ

pub record PageIncident : Type 0 where
  pub id : ℕ
  pub title : Text
  pub status : Text
  pub impact : Impact
  pub message : Text
  pub affected_targets : List ℕ
  pub resolved_at : Option ℕ
  pub updates : List IncidentUpdate

pub record Incidents : Type 0 where
  pub rows : List PageIncident
  pub next_id : ℕ

abbrev pub resolved : Text
resolved = codes "resolved"

abbrev pub resolution : Text → ℕ → Option ℕ
resolution status now = if teq status resolved then some now else none

-- COALESCE(a, b)
abbrev pub coalesce : Option ℕ → Option ℕ → Option ℕ
coalesce none b = b
coalesce (some a) b = some a

abbrev at_id : ℕ → (PageIncident → PageIncident) → PageIncident → PageIncident
at_id id f i = if i.id == id then f i else i

-- the incident with an update appended
unfoldable pub with_update : Text → Text → ℕ → PageIncident → PageIncident
with_update status message now i = record i {
  status = status;
  message = message;
  resolved_at = coalesce (resolution status now) i.resolved_at;
  updates = i.updates ++ record { status = status; message = message; created_at = now } ∷ [];
}

unfoldable pub add_update : ℕ → Text → Text → ℕ → Incidents → Incidents
unfolding with_update
add_update id status message now is = record is {
  rows = map (at_id id (with_update status message now)) is.rows;
}

-- title, status, impact, message, affected targets
pub record Draft : Type 0 where
  pub title : Text
  pub status : Text
  pub impact : Impact
  pub message : Text
  pub affected_targets : List ℕ

abbrev created : Draft → ℕ → ℕ → PageIncident
created inc now id = record {
  id = id;
  title = inc.title;
  status = inc.status;
  impact = inc.impact;
  message = inc.message;
  affected_targets = inc.affected_targets;
  resolved_at = resolution inc.status now;
  updates = [];
}

unfoldable pub create_incident : Draft → ℕ → Incidents → Incidents
unfolding add_update
create_incident inc now is =
    let added = record is {
      rows = created inc now is.next_id ∷ is.rows;
      next_id = is.next_id + 1;
    } in
    if teq (trim_space inc.message) []
    then added
    else add_update is.next_id inc.status inc.message now added

edited : Draft → ℕ → PageIncident → PageIncident
edited inc now i = record i {
  title = inc.title;
  status = inc.status;
  impact = inc.impact;
  message = inc.message;
  affected_targets = inc.affected_targets;
  resolved_at = resolution inc.status now;
}

unfoldable pub update_incident : ℕ → Draft → ℕ → Incidents → Incidents
unfolding edited
update_incident id inc now is = record is { rows = map (at_id id (edited inc now)) is.rows }

unfoldable pub delete_incident : ℕ → Incidents → Incidents
delete_incident id is = record is { rows = keep (λ i. not (i.id == id)) is.rows }

-- GetStatusPageIncidents(true): at most 50
unfoldable pub active_incidents : List PageIncident → List PageIncident
active_incidents rows = take 50 (keep (λ i. not (teq i.status resolved)) rows)

pub data Change : Type 0 where
  creates : Draft → ℕ → Change
  edits : ℕ → Draft → ℕ → Change
  posts : ℕ → Text → Text → ℕ → Change
  deletes : ℕ → Change

unfoldable pub change : Change → Incidents → Incidents
unfolding create_incident update_incident add_update delete_incident
change (creates inc now) is = create_incident inc now is
change (edits id inc now) is = update_incident id inc now is
change (posts id status message now) is = add_update id status message now is
change (deletes id) is = delete_incident id is

unfoldable pub change_all : List Change → Incidents → Incidents
change_all [] is = is
change_all (c ∷ cs) is = change_all cs (change c is)

-- A resolved incident has the time of its resolution.
abbrev pub IsDated : PageIncident → Type 0
IsDated i = teq i.status resolved ≡ true → i.resolved_at ≢ none

map-IsDated :
    (id : ℕ) (f : PageIncident → PageIncident) (rows : List PageIncident)
    → ((i : PageIncident) → IsDated i → IsDated (f i))
    → All IsDated rows
    → All IsDated (map (at_id id f) rows)
map-IsDated id f [] h k = k
map-IsDated id f (i ∷ rows) h k = (one (i.id == id), map-IsDated id f rows h k.1)
  where
    one : (b : Bool) → IsDated (if b then f i else i)
    one true = h i k.0
    one false = k.0

with_update-IsDated :
    (status message : Text) (now : ℕ) (i : PageIncident)
    → IsDated i
    → IsDated (with_update status message now i)
unfolding with_update
with_update-IsDated status message now i h e = ground (arith, e)

edited-IsDated : (inc : Draft) (now : ℕ) (i : PageIncident) → IsDated i → IsDated (edited inc now i)
unfolding edited
edited-IsDated inc now i h e = ground (arith, e)

keep-IsDated :
    (p : PageIncident → Bool) (rows : List PageIncident)
    → All IsDated rows
    → All IsDated (keep p rows)
keep-IsDated p [] h = h
keep-IsDated p (i ∷ rows) h = one (p i) (keep-IsDated p rows h.1)
  where
    one :
        (b : Bool)
        → All IsDated (keep p rows)
        → All IsDated (if b then i ∷ keep p rows else keep p rows)
    one true rest = (h.0, rest)
    one false rest = rest

resolution-dates :
    (status : Text) (now : ℕ) → teq status resolved ≡ true → resolution status now ≢ none
resolution-dates status now e = ground (arith, e)

create-IsDated :
    (inc : Draft) (now : ℕ) (is : Incidents)
    → All IsDated is.rows
    → All IsDated (create_incident inc now is).rows
unfolding create_incident add_update
create-IsDated inc now is h = elim (Bool-cases (teq (trim_space inc.message) [])) [
  | inl silent ↦ rw (silent, create_incident) (resolution-dates inc.status now, h)
  | inr told ↦
      rw (told, create_incident)
        (map-IsDated is.next_id (with_update inc.status inc.message now)
          (created inc now is.next_id ∷ is.rows) (with_update-IsDated inc.status inc.message now)
          (resolution-dates inc.status now, h))
]

change-IsDated :
    (c : Change) (is : Incidents) → All IsDated is.rows → All IsDated (change c is).rows
unfolding change create_incident update_incident add_update delete_incident
change-IsDated (edits id inc now) is h =
    map-IsDated id (edited inc now) is.rows (edited-IsDated inc now) h
change-IsDated (posts id status message now) is h =
    map-IsDated id (with_update status message now) is.rows (with_update-IsDated status message now)
      h
change-IsDated (deletes id) is h = keep-IsDated (λ i. not (i.id == id)) is.rows h
change-IsDated (creates inc now) is h = create-IsDated inc now is h

change_all-IsDated :
    (cs : List Change) (is : Incidents) → All IsDated is.rows → All IsDated (change_all cs is).rows
unfolding change_all
change_all-IsDated [] is h = h
change_all-IsDated (c ∷ cs) is h = change_all-IsDated cs (change c is) (change-IsDated c is h)

-- Whatever incidents are created, edited, posted to and deleted, in any order, every incident that
-- is resolved has the time of its resolution.
pub resolved_has_time :
    (cs : List Change) (first_id : ℕ)
    → All IsDated (change_all cs (record { rows = []; next_id = first_id })).rows
resolved_has_time cs first_id = change_all-IsDated cs (record { rows = []; next_id = first_id }) tt
