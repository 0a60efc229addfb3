-- ===== src/Collaboration/Interleaving.antt =====
-- Concurrent recruits of one lead: `_execute_as_lead` runs the tool calls of a round together, so
-- the waits of several `recruit` calls overlap on one brief. A step begins a recruit (its part under
-- the budget lock) or ends one that waits, in any order.
use jarvis_server.Prelude.{
  ◌⊎◌, inl, inr, ◌∙◌, ℕ, ◌+◌, ◌≤◌, ◌≡◌, refl, sym, ap, String, true, false, some, List, [], ◌∷◌,
  ◌++◌, arith, length, length-append, contains, str_eq, All,
}
use jarvis_server.Prelude.Int.{pred_ℤ, pos_part}
use jarvis_server.Prelude.Dict.{Dict}
use jarvis_server.Mission.{MissionBrief, MissionBudget, can_recruit, has_visited}
use jarvis_server.Collaboration.{
  find_capability_provider, Guarded, granted, refused, check_recruit, spend, spend_if, reserve,
  Answer, answered, timed_out, failed, complete, RecruitError,
}

-- The shared brief, the recruits that wait (agent and capability), and all agents granted so far.
pub record Shared : Type 0 where
  pub brief : MissionBrief
  pub waiting : List (String × String)
  pub grants : List String

abbrev pub note : String → Guarded → Shared → Shared
note capability (granted agent) s = record s {
  waiting = s.waiting ++ (agent, capability) ∷ [];
  grants = agent ∷ s.grants;
}
note capability (refused e) s = s

unfoldable pub begin_recruit : String → String → ℕ → Shared → Shared
unfolding reserve
begin_recruit self capability now s =
    let (outcome, brief') = reserve self capability s.brief now in
    note capability outcome (record s { brief = brief' })

pub data Step (self : String) : Shared → Shared → Type 0 where
  begin :
      (s : Shared) (capability : String) (now : ℕ)
      → Step self s (begin_recruit self capability now s)
  finish :
      (s : Shared) (before after : List (String × String)) (agent capability : String)
      (answer : Answer)
      → s.waiting ≡ before ++ (agent, capability) ∷ after
      → Step self s
          (record s { brief = complete agent capability answer s.brief; waiting = before ++ after })

pub data Reach (self : String) (s : Shared) : Shared → Type 0 where
  here : Reach self s s
  next : {t u : Shared} → Reach self s t → Step self t u → Reach self s u

-- An agent that a lead may recruit: another one, outside the chain.
abbrev IsRecruitable : String → List String → String → Type 0
IsRecruitable self chain agent = (str_eq agent self ≡ false) × (contains agent chain ≡ false)

-- What holds of the shared brief at any time, for the brief `start` of the mission.
pub record IsWithin (self : String) (start : MissionBrief) (s : Shared) : Type 0 where
  pub chain : s.brief.context.recruitment_chain ≡ start.context.recruitment_chain
  pub depth : s.brief.budget.remaining_depth ≡ start.budget.remaining_depth
  pub spent :
      pos_part s.brief.budget.remaining_recruitments + length s.grants
      ≡ pos_part start.budget.remaining_recruitments
  pub recorded :
      length s.brief.context.recruitment_results + length s.waiting
      ≤ length start.context.recruitment_results + length s.grants
  pub others : All (IsRecruitable self start.context.recruitment_chain) s.grants

find_other :
    (self capability : String) (caps : Dict (List String)) (agent : String)
    → find_capability_provider self capability caps ≡ some agent
    → str_eq agent self ≡ false
unfolding find_capability_provider
find_other self capability [] agent h = cc
find_other self capability ((a, cs) ∷ rest) agent h =
    ground (arith, find_other self capability rest agent)

-- A grant means that the budget allowed it, the agent is another one, and it is not in the chain.
pub check_recruit-granted :
    (self capability : String) (b : MissionBrief) (now : ℕ) (agent : String)
    → check_recruit self capability b now ≡ granted agent
    → (can_recruit b.budget now ≡ true) × IsRecruitable self b.context.recruitment_chain agent
unfolding check_recruit has_visited
check_recruit-granted self capability b now agent h =
    ground (arith, find_other self capability b.available_capabilities agent)

pub spend_one :
    (b : MissionBudget) (now : ℕ)
    → can_recruit b now ≡ true
    → pos_part (pred_ℤ b.remaining_recruitments) + 1 ≡ pos_part b.remaining_recruitments
unfolding can_recruit
spend_one b now h = ground arith

pub Guarded-cases :
    (g : Guarded) → ((a : String) × (g ≡ granted a)) ⊎ ((e : RecruitError) × (g ≡ refused e))
Guarded-cases (granted a) = inl (a, refl)
Guarded-cases (refused e) = inr (e, refl)

begin-granted :
    (self capability : String) (now : ℕ) (s : Shared) (agent : String)
    → check_recruit self capability s.brief now ≡ granted agent
    → begin_recruit self capability now s ≡ record {
      brief = spend s.brief;
      waiting = s.waiting ++ (agent, capability) ∷ [];
      grants = agent ∷ s.grants;
    }
unfolding begin_recruit
begin-granted self capability now s agent h = rw (h, spend_if, note)

begin-refused :
    (self capability : String) (now : ℕ) (s : Shared) (e : RecruitError)
    → check_recruit self capability s.brief now ≡ refused e
    → begin_recruit self capability now s ≡ s
unfolding begin_recruit
begin-refused self capability now s e h = rw (h, spend_if, note)

granted-IsWithin :
    (self capability : String) (now : ℕ) (start : MissionBrief) (s : Shared) (agent : String)
    → check_recruit self capability s.brief now ≡ granted agent
    → IsWithin self start s
    → IsWithin self start (record {
      brief = spend s.brief;
      waiting = s.waiting ++ (agent, capability) ∷ [];
      grants = agent ∷ s.grants;
    })
granted-IsWithin self capability now start s agent h w =
    let (budget, apart) = check_recruit-granted self capability s.brief now agent h in
    record {
      chain = w.chain;
      depth = w.depth;
      spent = omega (arith, w.spent, spend_one s.brief.budget now budget);
      recorded = omega (arith, w.recorded, length-append s.waiting ((agent, capability) ∷ []));
      others = ((apart.0, ap (contains agent) (sym w.chain) ∙ apart.1), w.others);
    }

pub length-complete :
    (agent capability : String) (answer : Answer) (b : MissionBrief)
    → length (complete agent capability answer b).context.recruitment_results
      ≤ length b.context.recruitment_results + 1
unfolding complete
length-complete agent capability (answered v) b = omega (
  arith,
  length-append b.context.recruitment_results
      (record { agent = agent; capability = capability; result = v } ∷ []),
)
length-complete agent capability (timed_out m) b = omega arith
length-complete agent capability (failed m) b = omega arith

-- The end of a recruit touches neither the chain nor the budget.
pub complete-chain :
    (agent capability : String) (answer : Answer) (b : MissionBrief)
    → ((complete agent capability answer b).context.recruitment_chain ≡ b.context.recruitment_chain)
      × ((complete agent capability answer b).budget ≡ b.budget)
unfolding complete
complete-chain agent capability (answered v) b = (refl, refl)
complete-chain agent capability (timed_out m) b = (refl, refl)
complete-chain agent capability (failed m) b = (refl, refl)

finish-IsWithin :
    (self : String) (start : MissionBrief) (s : Shared) (before after : List (String × String))
    (agent capability : String) (answer : Answer)
    → s.waiting ≡ before ++ (agent, capability) ∷ after
    → IsWithin self start s
    → IsWithin self start
        (record s { brief = complete agent capability answer s.brief; waiting = before ++ after })
finish-IsWithin self start s before after agent capability answer e w =
    let (chain, budget) = complete-chain agent capability answer s.brief in
    record {
      chain = chain ∙ w.chain;
      depth = ap (λ (b : MissionBudget). b.remaining_depth) budget ∙ w.depth;
      spent =
          omega
            (arith, w.spent, ap (λ (b : MissionBudget). pos_part b.remaining_recruitments) budget);
      recorded = omega (
        arith,
        w.recorded,
        length-complete agent capability answer s.brief,
        ap length e,
        length-append before after,
        length-append before ((agent, capability) ∷ after),
      );
      others = w.others;
    }

begin-IsWithin :
    (self : String) (start : MissionBrief) (s : Shared) (capability : String) (now : ℕ)
    → IsWithin self start s
    → IsWithin self start (begin_recruit self capability now s)
begin-IsWithin self start s capability now w =
    elim (Guarded-cases (check_recruit self capability s.brief now)) [
      | inl (agent, h) ↦
          rw (begin-granted self capability now s agent h)
            (granted-IsWithin self capability now start s agent h w)
      | inr (e, h) ↦ rw (begin-refused self capability now s e h) w
    ]

Step-IsWithin :
    {self : String} {s t : Shared} (start : MissionBrief)
    → Step self s t
    → IsWithin self start s
    → IsWithin self start t
Step-IsWithin {self} start (begin s capability now) w = begin-IsWithin self start s capability now w
Step-IsWithin {self} start (finish s before after agent capability answer e) w =
    finish-IsWithin self start s before after agent capability answer e w

abbrev pub fresh : MissionBrief → Shared
fresh start = record { brief = start; waiting = []; grants = [] }

fresh-IsWithin : (self : String) (start : MissionBrief) → IsWithin self start (fresh start)
fresh-IsWithin self start = record {
  chain = refl;
  depth = refl;
  spent = omega arith;
  recorded = omega arith;
  others = tt;
}

-- Whatever the order in which the recruits of a round begin and end: the chain and the depth of the
-- brief stay, every grant costs one recruitment of the budget and none is granted beyond it, no more
-- results are added than recruits were granted, and every granted agent is another agent outside
-- the chain.
pub Reach-IsWithin :
    {self : String} (start : MissionBrief) {s : Shared}
    → Reach self (fresh start) s
    → IsWithin self start s
Reach-IsWithin {self} start here = fresh-IsWithin self start
Reach-IsWithin start (next r st) = Step-IsWithin start st (Reach-IsWithin start r)
