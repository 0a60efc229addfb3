-- ===== src/Nlu/Searches.antt =====
-- The search for cycles of jarvis/agents/nlu_agent/__init__.py, one capability and its dependencies.
use mathlib.Core.WellFounded.{Acc}
use jarvis_server.Prelude.{
  ℕ, zero, suc, ◌≤◌, String, ◌≡◌, sym, ◌∙◌, inl, inr, true, false, not, Option, none, some, List,
  [], ◌∷◌, arith, str_eq, str_eq_iff, contains, contains-keep, ◌>>=◌, Bool-cases,
}
use jarvis_server.Nlu.Graph.{
  Dag, deps_of, Walk, Found, cycle, clear, then_scan, scan, enter, leave, has_cycle,
}
use jarvis_server.Nlu.Walks.{
  Needs, Leads, here, Leads-append, missing, IsSound, Explored, IsOpen, Outcome, Visits,
  missing-grows, missing-enter, enter-IsSound, Explored-self, AllDone, Outcome-later, names-deps,
}

module _ (dag : Dag) where
  module _ (fuel : ℕ) (visit : String → Walk → Option Found) (visits : Visits dag fuel visit)
      (cap : String) where
    -- What the loop over the dependencies needs of the sets.
    pub record IsWithin (w : Walk) : Type 0 where
      sound : IsSound dag w
      leads : (x : String) → contains x w.rec_stack ≡ true → Leads dag x cap
      room : missing dag w ≤ fuel

    IsWithin-Explored : {w w' : Walk} → IsWithin w → Explored dag w w' → IsWithin w'
    IsWithin-Explored {w} {w'} i e = record {
      sound = e.sound;
      leads = λ x h. i.leads x (sym (e.same x) ∙ h);
      room = omega (arith, missing-grows dag w w' e.grows, i.room);
    }

    IsOpen-dep :
        (d : String) (w : Walk)
        → IsWithin w
        → contains d w.visited ≡ false
        → Needs dag d cap
        → IsOpen dag d w
    IsOpen-dep d w i f n = record {
      sound = i.sound;
      fresh = f;
      known = names-deps dag cap d dag n;
      leads = λ x h. Leads-append dag (i.leads x h) n;
    }

    not_on_stack :
        (d : String) (w : Walk)
        → IsSound dag w
        → contains d w.visited ≡ false
        → contains d w.rec_stack ≡ false
    not_on_stack d w s f = ground (arith, s.stacked d)

    deeper-Outcome :
        (d : String) (ds : List String) (w : Walk)
        → IsWithin w
        → contains d w.rec_stack ≡ false
        → ((w' : Walk) → IsWithin w' → Outcome dag (AllDone dag ds) w' (scan visit ds w'))
        → (o : Option Found) → Outcome dag (λ _ w'. contains d w'.visited ≡ true) w o
        → Outcome dag (AllDone dag (d ∷ ds)) w (o >>= then_scan (scan visit ds))
    deeper-Outcome d ds w i k again none h = h
    deeper-Outcome d ds w i k again (some cycle) h = h
    deeper-Outcome d ds w i k again (some (clear w')) (e, v) =
        Outcome-later dag w w' d ds e (v, e.same d ∙ k) (scan visit ds w')
          (again w' (IsWithin-Explored i e))

    scan-Outcome :
        (ds : List String) (w : Walk)
        → IsWithin w
        → ((d : String) → contains d ds ≡ true → Needs dag d cap)
        → Outcome dag (AllDone dag ds) w (scan visit ds w)
    unfolding scan AllDone
    scan-Outcome [] w i n = (Explored-self dag w i.sound, λ d h. cc)
    scan-Outcome (d ∷ ds) w i n = elim (Bool-cases (contains d w.visited)) [
      | inl v ↦ elim (Bool-cases (contains d w.rec_stack)) [
        | inl k ↦ rw (v, k) (d, cap, i.leads d k, n d (ground (arith, str_eq_iff d d)))
        | inr k ↦
            rw (v, k)
              (Outcome-later dag w w d ds (Explored-self dag w i.sound) (v, k) (scan visit ds w)
                (scan-Outcome ds w i (λ x h. n x (ground arith))))
      ]
      | inr v ↦ rw v (
          deeper-Outcome d ds w i (not_on_stack d w i.sound v)
            (λ w' i'. scan-Outcome ds w' i' (λ x h. n x (ground arith))) (visit d w)
            (visits d w (IsOpen-dep d w i v (n d (ground (arith, str_eq_iff d d)))) i.room))
    ]

  leave-Outcome :
      (cap : String) (w : Walk)
      → IsOpen dag cap w
      → (o : Option Found) → Outcome dag (AllDone dag (deps_of cap dag)) (enter cap w) o
      → Outcome dag (λ _ w'. contains cap w'.visited ≡ true) w (o >>= λ f. some (leave cap f))
  unfolding AllDone
  leave-Outcome cap w i none h = h
  leave-Outcome cap w i (some cycle) h = h
  leave-Outcome cap w i (some (clear w')) (e, all) =
      let others = λ (x : String). contains-keep (λ y. not (str_eq y cap)) x w'.rec_stack in
      (
        record {
          sound = record {
            finished = λ x v k. elim (Bool-cases (str_eq x cap)) [
              | inl q ↦
                  rw ((str_eq_iff x cap).0 q)
                    (Acc.intro cap (λ d n. e.sound.finished d (all d n).0 (all d n).1))
              | inr q ↦ e.sound.finished x v (ground (arith, others x))
            ];
            stacked = λ x k. e.sound.stacked x (ground (arith, others x));
          };
          grows = λ x v. e.grows x (ground arith);
          same = λ x. ground (
            arith,
            others x,
            e.same x,
            i.sound.stacked cap,
            i.fresh,
            str_eq_iff x cap,
            str_eq_iff cap x,
          );
        },
        e.grows cap (ground (arith, str_eq_iff cap cap)),
      )

  pub has_cycle-Visits : (fuel : ℕ) → Visits dag fuel (has_cycle dag fuel)
  unfolding has_cycle
  has_cycle-Visits zero d w i m = absurd (omega (arith, missing-enter dag d w i))
  has_cycle-Visits (suc fuel) d w i m =
      leave-Outcome d w i (scan (has_cycle dag fuel) (deps_of d dag) (enter d w)) (
        scan-Outcome fuel (has_cycle dag fuel) (has_cycle-Visits fuel) d (deps_of d dag) (enter d w)
          (record {
            sound = enter-IsSound dag d w i.sound;
            leads = λ x k. elim (Bool-cases (str_eq d x)) [
              | inl q ↦ rw (← (str_eq_iff d x).0 q) here
              | inr q ↦ i.leads x (ground arith)
            ];
            room = omega (arith, missing-enter dag d w i);
          })
          (λ x n. n))
