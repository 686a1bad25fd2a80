-- ===== src/Tests/Regained.antt =====
-- A tenant that keeps the roles of one user.
use v_cx_credit_guard.Prelude.{
  ◌≡◌, inl, inr, refl, sym, ◌∙◌, ap, Bool, true, false, not, ◌&&◌, ◌||◌, some, List, [], ◌∷◌, ◌++◌,
  select, str_eq, eq_iff, arith, Bool-cases,
}
use v_cx_credit_guard.Exec.{ok}
use v_cx_credit_guard.Model.Limits.{RoleRef, UndoSnapshot}
use v_cx_credit_guard.Model.Database.{World}
use v_cx_credit_guard.Checkmarx.{Remote}
use v_cx_credit_guard.Enforcement.Perform.{is_ai_role, is_whole, perform_user, undo_user}
use v_cx_credit_guard.Enforcement.Regained.{
  Held, KeepsRoles, Held-select, chosen_passes, undo_user-perform_user,
}
use v_cx_credit_guard.Tests.Fixtures.{Roles, viewer, fresh}

abbrev is_same : RoleRef → RoleRef → Bool
is_same a b = str_eq a.id b.id && str_eq a.name b.name

same_role : (a b : RoleRef) → is_same a b ≡ true → a ≡ b
same_role a b e =
    let ids : a.id ≡ b.id = ground (arith, eq_iff a.id b.id) in
    let names : a.name ≡ b.name = ground (arith, eq_iff a.name b.name) in
    λ i. record { id = ids i; name = names i }

same_self : (a : RoleRef) → is_same a a ≡ true
same_self a = rw ((eq_iff a.id a.id).1 refl, (eq_iff a.name a.name).1 refl) refl

abbrev is_held : RoleRef → List RoleRef → Bool
is_held r [] = false
is_held r (x ∷ roles) = is_same x r || is_held r roles

found_there : (r : RoleRef) (roles : List RoleRef) → Held r roles → is_held r roles ≡ true
found_there r [] h = absurd h
found_there r (x ∷ roles) (inl e) =
    let own : is_same x r ≡ true = ap (λ y. is_same y r) e ∙ same_self r in ground arith
found_there r (x ∷ roles) (inr h) = ground (arith, found_there r roles h)

is_held-Held : (r : RoleRef) (roles : List RoleRef) → is_held r roles ≡ true → Held r roles
is_held-Held r [] e = cc (e)
is_held-Held r (x ∷ roles) e = elim (Bool-cases (is_same x r)) [
  | inl own ↦ inl (same_role x r own)
  | inr other ↦ inr (is_held-Held r roles (ground arith))
]

Held-append : (r : RoleRef) (xs ys : List RoleRef) → Held r xs → Held r (xs ++ ys)
Held-append r [] ys h = absurd h
Held-append r (x ∷ xs) ys (inl e) = inl e
Held-append r (x ∷ xs) ys (inr h) = inr (Held-append r xs ys h)

contradicts :
    (r : RoleRef) (roles : List RoleRef) → is_held r roles ≡ true → not (is_held r roles) ≡ true → ⊥
contradicts r roles held free = ground arith

abbrev one_user : Remote Roles
one_user = record {
  get_clients = λ t. (ok [], t);
  get_role_mappings = λ u c t. (ok t, t);
  delete_role_mappings = λ u c roles t. (ok tt, select (λ r. not (is_held r roles)) t);
  post_role_mappings = λ u c roles t. (ok tt, roles ++ t);
  get_configuration = λ p t. (ok (record { enabled = some false; config = [] }), t);
  put_configuration = λ p e c t. (ok tt, t);
  get_repo = λ r p t. (ok (some []), t);
  patch_repo = λ r p s t. (ok tt, t);
}

abbrev kept_roles : KeepsRoles one_user
kept_roles = record {
  read = λ t u c. t;
  removed = λ u c roles t. select (λ r. not (is_held r roles)) t;
  added = λ u c roles t. roles ++ t;
  reads = λ u c t. refl;
  removes = λ u c roles t. refl;
  adds = λ u c roles t. refl;
  gone = λ u c roles t r h k.
      contradicts r roles (found_there r roles h)
        (chosen_passes (λ x. not (is_held x roles)) r t k);
  stays = λ u c roles t r h. elim (Bool-cases (is_held r roles)) [
    | inl taken ↦ inl (is_held-Held r roles taken)
    | inr free ↦ inr (Held-select (λ x. not (is_held x roles)) r t h (rw free refl))
  ];
  there = λ u c roles t r h. Held-append r roles t h;
}

abbrev auditor : RoleRef
auditor = record { id = "r2"; name = "auditor" }

-- The user holds an AI role and another one, and loses both after the restriction.
abbrev client_cached : Roles → World Roles
client_cached roles = record fresh { tenant = roles; resolver_uuid = some "c1" }

both_whole :
    (r : RoleRef) → Held r (viewer ∷ auditor ∷ []) → is_ai_role r ≡ true → is_whole r ≡ true
both_whole r (inl e) ai = sym (ap is_whole e)
both_whole r (inr (inl e)) ai = sym (ap is_whole e)
both_whole r (inr (inr h)) ai = absurd h

undo_user-perform_user_example :
    let w = client_cached (viewer ∷ auditor ∷ []) in
    (s : UndoSnapshot) × (w' w'' : World Roles) × (perform_user one_user "u1" w ≡ (ok s, w'))
    × (undo_user one_user s "u1" (client_cached []) ≡ (ok tt, w''))
    × ((r : RoleRef)
        → Held r (viewer ∷ auditor ∷ [])
        → (is_ai_role r ≡ true → (¬ Held r w'.tenant) × Held r w''.tenant)
          × (is_ai_role r ≡ false → Held r w'.tenant))
undo_user-perform_user_example =
    undo_user-perform_user one_user kept_roles "u1" "c1" (client_cached (viewer ∷ auditor ∷ []))
      (client_cached []) refl refl both_whole
