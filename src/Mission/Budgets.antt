-- ===== src/Mission/Budgets.antt =====
-- Budgets and child budgets of jarvis/core/mission.py.
use jarvis_server.Prelude.{ℕ, zero, suc, ◌≤◌, ◌<◌, ◌≡◌, refl, true, false, arith, inl, inr, ◌⊎◌}
use jarvis_server.Prelude.Int.{ℤ, pos, negsuc, pred_ℤ, is_pos, pos_part}
use jarvis_server.Mission.{MissionBudget, time_remaining, can_recruit, child_budget}

-- The budget of a child of a child ..., `n` levels down.
abbrev descend : ℕ → MissionBudget → MissionBudget
descend zero b = b
descend (suc n) b = descend n (child_budget b)

-- While a budget allows recruitment there is time left, and there is none once the deadline passed.
can_recruit-time_remaining :
    (b : MissionBudget) (now : ℕ) → can_recruit b now ≡ true → 0 < time_remaining b now
unfolding can_recruit time_remaining
can_recruit-time_remaining b now h = ground arith

pub pos_part-pred : (n : ℤ) → pos_part (pred_ℤ n) ≤ pos_part n
pos_part-pred (pos zero) = omega arith
pos_part-pred (pos (suc n)) = omega arith
pos_part-pred (negsuc n) = omega arith

exhausted_pred : (x : ℤ) (n : ℕ) → pos_part x ≤ suc n → pos_part (pred_ℤ x) ≤ n
exhausted_pred (pos zero) n h = omega arith
exhausted_pred (pos (suc m)) n h = omega arith
exhausted_pred (negsuc m) n h = omega arith

not-is_pos : (x : ℤ) → pos_part x ≤ 0 → is_pos x ≡ false
not-is_pos (pos zero) h = refl
not-is_pos (pos (suc m)) h = absurd (omega arith)
not-is_pos (negsuc m) h = refl

-- Nesting ends: after as many child budgets as the depth or the recruitments that remain, no budget
-- allows another recruitment, whatever the time.
descend_exhausted :
    (n : ℕ) (b : MissionBudget) (now : ℕ)
    → (pos_part b.remaining_depth ≤ n) ⊎ (pos_part b.remaining_recruitments ≤ n)
    → can_recruit (descend n b) now ≡ false
unfolding can_recruit child_budget
descend_exhausted zero b now (inl h) = rw (not-is_pos b.remaining_depth h)
descend_exhausted zero b now (inr h) = ground (arith, not-is_pos b.remaining_recruitments h)
descend_exhausted (suc n) b now (inl h) =
    descend_exhausted n (child_budget b) now (inl (exhausted_pred b.remaining_depth n h))
descend_exhausted (suc n) b now (inr h) =
    descend_exhausted n (child_budget b) now (inr (exhausted_pred b.remaining_recruitments n h))
