-- ===== src/Auth/Authorization/Decides.antt =====
-- What the PolicyDecisionPoint decides, by the effective rules of the agent
-- (authorization_service.go).
use pericarp.Prelude.{
  String, Bool, Bool-cases, true, false, not, ◌&&◌, ◌||◌, ◌≡◌, refl, ◌⊎◌, inl, inr, List, [], ◌∷◌,
  ◌++◌, All, arith,
}
use pericarp.Auth.Authorization.{
  Permission, Answer, ok, err, PermissionStore, AuthorizationError, permissions_failed,
  prohibitions_failed, any_match, find_match, evaluate, collect_assignees, is_authorized, gather,
  get_permissions, get_prohibitions,
}

any_match-append :
    (ps qs : List Permission) (action target : String)
    → any_match (ps ++ qs) action target
      ≡ (any_match ps action target || any_match qs action target)
unfolding any_match
any_match-append [] qs action target = refl
any_match-append (p ∷ ps) qs action target = ground (arith, any_match-append ps qs action target)

pub Answer-cases :
    {E A : Type 0} (r : Answer E A) → ((a : A) × (r ≡ ok a)) ⊎ ((e : E) × (r ≡ err e))
Answer-cases (ok a) = inl (a, refl)
Answer-cases (err e) = inr (e, refl)

module _ {E : Type 0} where
  gather-keeps :
      (rules_of : String → Answer E (List Permission)) (wrap : String → E → AuthorizationError E)
      (assignees : List String) (before all : List Permission) (action target : String)
      → any_match before action target ≡ true
      → gather rules_of wrap assignees before ≡ ok all
      → any_match all action target ≡ true
  unfolding gather
  gather-keeps rules_of wrap [] before all action target found given = cc (found, given)
  gather-keeps rules_of wrap (a ∷ assignees) before all action target found given =
      elim (Answer-cases (rules_of a)) [
        | inr (e, failed) ↦ ground (arith, failed, given)
        | inl (rules, read) ↦
            gather-keeps rules_of wrap assignees (before ++ rules) all action target
              (ground (arith, any_match-append before rules action target, found))
              (ground (arith, read, given))
      ]

  -- Where the rules of all assignees can be read, the loop of evaluate asks all of them.
  find_match-gather :
      (rules_of : String → Answer E (List Permission)) (wrap : String → E → AuthorizationError E)
      (assignees : List String) (before all : List Permission) (action target : String)
      → any_match before action target ≡ false
      → gather rules_of wrap assignees before ≡ ok all
      → find_match rules_of wrap assignees action target ≡ ok (any_match all action target)
  unfolding find_match gather
  find_match-gather rules_of wrap [] before all action target none_yet given = cc (none_yet, given)
  find_match-gather rules_of wrap (a ∷ assignees) before all action target none_yet given =
      elim (Answer-cases (rules_of a)) [
        | inr (e, failed) ↦ ground (arith, failed, given)
        | inl (rules, read) ↦
            let both = any_match-append before rules action target in
            let rest : gather rules_of wrap assignees (before ++ rules) ≡ ok all =
              ground (arith, read, given) in
            elim (Bool-cases (any_match rules action target)) [
              | inl found ↦
                  let kept =
                    gather-keeps rules_of wrap assignees (before ++ rules) all action target
                      (ground (arith, both, found)) rest in
                  ground (arith, read, found, kept)
              | inr not_here ↦
                  let later =
                    find_match-gather rules_of wrap assignees (before ++ rules) all action target
                      (ground (arith, both, not_here, none_yet)) rest in
                  ground (arith, read, not_here, later)
            ]
      ]

  pub evaluate-both :
      (s : PermissionStore E) (assignees : List String) (action target : String)
      (forbidden allowed : Bool)
      → find_match s.prohibitions_for prohibitions_failed assignees action target ≡ ok forbidden
      → find_match s.permissions_for permissions_failed assignees action target ≡ ok allowed
      → evaluate s assignees action target ≡ ok (not forbidden && allowed)
  unfolding evaluate
  evaluate-both s assignees action target true allowed prohibited may =
      rw (prohibited, evaluate) refl
  evaluate-both s assignees action target false allowed prohibited may =
      rw (prohibited, evaluate) may

  -- A prohibition of the assignee was read, and none of them matches.
  abbrev pub IsClear : PermissionStore E → String → String → String → Type 0
  IsClear s action target a =
      (rules : List Permission) × (s.prohibitions_for a ≡ ok rules)
      × (any_match rules action target ≡ false)

  find_match-IsClear :
      (s : PermissionStore E) (assignees : List String) (action target : String)
      → find_match s.prohibitions_for prohibitions_failed assignees action target ≡ ok false
      → All (IsClear s action target) assignees
  unfolding find_match
  find_match-IsClear s [] action target none_found = tt
  find_match-IsClear s (a ∷ assignees) action target none_found =
      elim (Answer-cases (s.prohibitions_for a)) [
        | inr (e, failed) ↦ ground (arith, failed, none_found)
        | inl (rules, read) ↦ elim (Bool-cases (any_match rules action target)) [
          | inl found ↦ ground (arith, read, found, none_found)
          | inr not_here ↦ (
            (rules, read, not_here),
            find_match-IsClear s assignees action target
                (ground (arith, read, not_here, none_found)),
          )
        ]
      ]

  evaluate-IsClear :
      (s : PermissionStore E) (assignees : List String) (action target : String)
      → evaluate s assignees action target ≡ ok true
      → All (IsClear s action target) assignees
  unfolding evaluate
  evaluate-IsClear s assignees action target granted =
      elim (Answer-cases
        (find_match s.prohibitions_for prohibitions_failed assignees action target)) [
          | inr (e, failed) ↦ ground (arith, failed, granted)
          | inl (true, prohibited) ↦ ground (arith, prohibited, granted)
          | inl (false, clear) ↦ find_match-IsClear s assignees action target clear
        ]

  -- IsAuthorized fails closed: it answers true only if the roles of the agent could be read, the
  -- prohibitions of the agent and of each of its roles could be read, and none of them matches the
  -- action and the target.
  pub is_authorized-fails_closed :
      (s : PermissionStore E) (agent_id action target : String)
      → is_authorized s agent_id action target ≡ ok true
      → (roles : List String) × (s.roles_for_agent agent_id ≡ ok roles)
        × All (IsClear s action target) (agent_id ∷ roles)
  unfolding is_authorized collect_assignees
  is_authorized-fails_closed s agent_id action target granted =
      elim (Answer-cases (s.roles_for_agent agent_id)) [
        | inr (e, failed) ↦ ground (arith, failed, granted)
        | inl (roles, read) ↦ (
          roles,
          read,
          evaluate-IsClear s (agent_id ∷ roles) action target (ground (arith, read, granted)),
        )
      ]

  -- IsAuthorized decides by the effective rules: where GetPermissions and GetProhibitions of the
  -- agent answer, it answers too, and it answers true exactly when some permission matches the
  -- action and the target and no prohibition does.
  pub is_authorized-effective :
      (s : PermissionStore E) (agent_id action target : String)
      (allowed forbidden : List Permission)
      → get_permissions s agent_id ≡ ok allowed
      → get_prohibitions s agent_id ≡ ok forbidden
      → is_authorized s agent_id action target
        ≡ ok (not (any_match forbidden action target) && any_match allowed action target)
  unfolding get_permissions get_prohibitions is_authorized collect_assignees
  is_authorized-effective s agent_id action target allowed forbidden may may_not =
      elim (Answer-cases (s.roles_for_agent agent_id)) [
        | inr (e, failed) ↦ ground (arith, failed, may)
        | inl (roles, read) ↦
            let assignees = agent_id ∷ roles in
            let allow =
              find_match-gather s.permissions_for permissions_failed assignees [] allowed action
                target refl (ground (arith, read, may)) in
            let forbid =
              find_match-gather s.prohibitions_for prohibitions_failed assignees [] forbidden action
                target refl (ground (arith, read, may_not)) in
            rw (read, is_authorized) (evaluate-both s assignees action target _ _ forbid allow)
      ]
