-- ===== src/Api/Granted.antt =====
-- src/app/api/assignments.py, `create_assignment`, and `assign_licence` behind it: when a seat is granted.
use saas_agent_lab.Common.{
  ℕ, suc, ◌<◌, ◌≤◌, ltb, ◌||◌, ◌≡◌, refl, Bool, true, false, Option, none, some, List, [], ◌∷◌,
  ◌++◌, leb, any, find, where_, next_key, any-append, arith,
}
use saas_agent_lab.Text.{Text, Unicode}
use saas_agent_lab.Models.{User, Licence, Assignment, AuditEvent}
use saas_agent_lab.Models.Enums.{UserStatus, is_active}
use saas_agent_lab.Repositories.Users as UserRows
use saas_agent_lab.Repositories.Licences as LicenceRows
use saas_agent_lab.Repositories.Assignments as AssignmentRows
use saas_agent_lab.Repositories.AuditEvents
use saas_agent_lab.Repositories.AuditEvents.{event_key}
use saas_agent_lab.Repositories.Users.{user_key}
use saas_agent_lab.Repositories.Licences.{licence_key}
use saas_agent_lab.Repositories.Assignments.{assignment_key, is_active_for, dangling}
use saas_agent_lab.Services.Assignments.{assign_licence, audit_snapshot}
use saas_agent_lab.Services.Assignments.Refinement.{view, status_of, total_of}
use saas_agent_lab.Services.Validation.{validated_actor}
use saas_agent_lab.Api.Requests.{
  get_actor, id_max, validated_id, create_assignment, serve, success, assignment, endpoint, respond,
  create_assignment_status,
}
use saas_agent_lab.Services.Escapes.{whole}
use saas_agent_lab.Session.{World, ok, ◌>>=◌, pure}
use saas_agent_lab.Session.Succeeds.{
  bind-ok, lift-ok, query-ok, or_raise-ok, raise_if-ok, try_catch-ok, attempt-ok, transaction-ok,
}

none_where : {A : Type 0} → (p : A → Bool) (xs : List A) → any p xs ≡ false → where_ p xs ≡ []
none_where p [] h = refl
none_where p (x ∷ xs) h = ground (arith, none_where p xs)

of_status :
    (o : Option User) (s : UserStatus)
    → status_of o ≡ some s
    → (x : User) × (o ≡ some x) × (x.status ≡ s)
of_status none s h = absurd (cc)
of_status (some x) s h = (x, refl, cc)

of_total :
    (o : Option Licence) (n : ℕ)
    → total_of o ≡ some n
    → (l : Licence) × (o ≡ some l) × (l.seats_total ≡ n)
of_total none n h = absurd (cc)
of_total (some l) n h = (l, refl, cc)

room_left : (n used : ℕ) → used < n → leb n used ≡ false
room_left n used h = ground arith

-- The ids that `EntityId` admits.
abbrev pub IsId : ℕ → Type 0
IsId id = (1 ≤ id) × (id ≤ id_max)

validated : (id : ℕ) → IsId id → validated_id id ≡ ok id
unfolding validated_id
validated id h = rw (in_range id h) refl
  where
    in_range : (n : ℕ) → IsId n → ltb n 1 || ltb id_max n ≡ false
    in_range n (low, high) = ground arith

module _ (u : Unicode) (x_actor : Text) (user licence : ℕ) (w : World) where
  abbrev pub Granted : Type 0
  Granted =
      (a : Assignment) × ((serve u (create_assignment x_actor user licence) w).0
        ≡ ok (success 201 (assignment a)))
      × (a.user_id ≡ user)
      × (a.licence_id ≡ licence)
      × ((view (serve u (create_assignment x_actor user licence) w).1.db).holds user licence ≡ true)

  abbrev new : Assignment
  new = record {
    id = next_key assignment_key w.db.assignments;
    user_id = user;
    licence_id = licence;
    assigned_at = w.clock w.readings;
    revoked_at = none;
  }

  module _ (actor : Text) where
    abbrev event : AuditEvent
    event = record {
      id = next_key event_key w.db.audit_events;
      actor = actor;
      action = "assignment.create";
      entity_type = "assignment";
      entity_id = new.id;
      before = none;
      after = some (audit_snapshot new);
      created_at = w.clock (suc w.readings);
    }

    abbrev inserted : World
    inserted = record w {
      db = record w.db { assignments = w.db.assignments ++ new ∷ [] };
      readings = suc w.readings;
    }

    abbrev after : World
    after = record w {
      db = record w.db {
        assignments = w.db.assignments ++ new ∷ [];
        audit_events = w.db.audit_events ++ event ∷ [];
      };
      readings = suc (suc w.readings);
    }

    module _ (x : User) (l : Licence) (valid : validated_actor x_actor ≡ ok actor)
        (found_user : find user_key user w.db.users ≡ some x)
        (active : x.status ≡ UserStatus.active)
        (found_licence : find licence_key licence w.db.licences ≡ some l)
        (room : leb l.seats_total ((view w.db).seats_used licence) ≡ false)
        (fresh : (view w.db).holds user licence ≡ false) where
      added : AssignmentRows.add user licence w ≡ (ok new, inserted)
      unfolding ◌>>=◌ AssignmentRows.add
      added = rw fresh (rw (whole w.db user licence x l found_user found_licence) refl)

      none_active : AssignmentRows.get_active user licence w ≡ (ok none, w)
      unfolding ◌>>=◌ AssignmentRows.get_active
      none_active = rw (none_where (is_active_for user licence) w.db.assignments fresh) refl

      recorded :
          (AuditEvents.add actor "assignment.create" "assignment" new.id none
                (some (audit_snapshot new))
              >>= λ _. pure new)
            inserted
          ≡ (ok new, after)
      unfolding ◌>>=◌ AuditEvents.add
      recorded = refl

      assigned : assign_licence user licence x_actor w ≡ (ok new, after)
      unfolding assign_licence UserRows.get LicenceRows.get AssignmentRows.count_active_for_licence
      assigned = lift-ok _ _ w actor _ valid (
          query-ok _ _ w (some x) _ found_user (
            or_raise-ok _ _ _ w x _ refl (
              raise_if-ok _ _ _ w _ (rw active refl) (
                query-ok _ _ w (some l) _ found_licence (
                  or_raise-ok _ _ _ w l _ refl (
                    bind-ok _ _ w w none _ none_active (
                      raise_if-ok _ _ _ w _ refl (
                        query-ok _ _ w _ _ refl (
                          raise_if-ok _ _ _ w _ room (
                            bind-ok _ _ w inserted new _ (try_catch-ok _ _ w inserted new added)
                              recorded))))))))))

      held : (view after.db).holds user licence ≡ true
      held = rw (any-append (is_active_for user licence) w.db.assignments (new ∷ [])) (ground arith)

      sent :
          pure (respond 201 assignment create_assignment_status (ok new)) after
          ≡ (ok (success 201 (assignment new)), after)
      unfolding pure
      sent = refl

      answered :
          get_actor u x_actor ≡ ok x_actor
          → IsId user
          → IsId licence
          → serve u (create_assignment x_actor user licence) w
            ≡ (ok (success 201 (assignment new)), after)
      unfolding serve endpoint
      answered external is_user is_licence =
          bind-ok _ _ w after (ok new) _
            (attempt-ok _ w after new (
              transaction-ok _ w after new (
                lift-ok _ _ w x_actor _ external (
                  lift-ok _ _ w user _ (validated user is_user)
                    (lift-ok _ _ w licence _ (validated licence is_licence) assigned)))))
            sent

      granted : get_actor u x_actor ≡ ok x_actor → IsId user → IsId licence → Granted
      granted external is_user is_licence =
          rw (answered external is_user is_licence) (new, refl, refl, refl, held)

    -- A request to assign a licence is answered 201, and the user then has it, whenever the ledger can grant the
    -- seat: the user is active and does not have the licence, and a seat of it is free; if the ids are in the
    -- range of an `EntityId`, and the header has
    -- the name of an actor, which is not of the agent's namespace.
    pub serve-granted :
        (n : ℕ)
        → IsId user
        → IsId licence
        → get_actor u x_actor ≡ ok x_actor
        → validated_actor x_actor ≡ ok actor
        → (view w.db).status user ≡ some UserStatus.active
        → (view w.db).seats_total licence ≡ some n
        → (view w.db).seats_used licence < n
        → (view w.db).holds user licence ≡ false
        → Granted
    serve-granted n is_user is_licence external valid active total room fresh =
        let (x, found_user, is_active) = of_status _ _ active in
        let (l, found_licence, is_total) = of_total _ _ total in
        granted x l valid found_user is_active found_licence (rw is_total (room_left n _ room))
          fresh external is_user is_licence
