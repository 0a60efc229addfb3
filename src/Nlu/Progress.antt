-- ===== src/Nlu/Progress.antt =====
-- The run of a graph of capabilities under the answers of its agents, for
-- jarvis/agents/nlu_agent/__init__.py.
use jarvis_server.Prelude.{
  String, ◌≡◌, refl, ap, sym, ◌∙◌, true, false, ◌||◌, Option, none, some, List, [], ◌∷◌, arith, inl,
  inr, str_eq_iff, contains, Bool-cases,
}
use jarvis_server.Prelude.Dict.{get, keys, get-put, get-put_self}
use jarvis_server.Nlu.Graph.{Dag, deps_of}
use jarvis_server.Nlu.Walks.{Needs, IsAcyclic}
use jarvis_server.Nlu.Requests.{Request, NluAgent, split_id}
use jarvis_server.Nlu.Run.{add, discard, ready_caps, sub_id, started, start_cap, start_all}
use jarvis_server.Nlu.Sets.{
  is_distinct, Within, contains-add, contains-discard, is_distinct-add, sub_id-ne,
}
use jarvis_server.Nlu.Ready.{IsClosed, Within-of_all_in, ready-new, ready-deps}

-- The request after its capabilities started.
pub started_all : String → List String → Request → Request
started_all rid [] info = info
started_all rid (cap ∷ caps) info = started_all rid caps (started rid cap info)

-- What changes in a request when capabilities start.
pub record Grew (caps : List String) (info info' : Request) : Type 0 where
  pub grew_dag : info'.dag ≡ info.dag
  pub grew_completed : info'.completed_caps ≡ info.completed_caps
  pub grew_requester : info'.original_requester ≡ info.original_requester
  pub grew_running :
      (x : String)
      → contains x info'.running_caps ≡ (contains x info.running_caps || contains x caps)

pub started_all-Grew :
    (rid : String) (caps : List String) (info : Request)
    → Grew caps info (started_all rid caps info)
unfolding started_all
started_all-Grew rid [] info = record {
  grew_dag = refl;
  grew_completed = refl;
  grew_requester = refl;
  grew_running = λ x. ground arith;
}
started_all-Grew rid (cap ∷ caps) info =
    let ih = started_all-Grew rid caps (started rid cap info) in
    record {
      grew_dag = ih.grew_dag;
      grew_completed = ih.grew_completed;
      grew_requester = ih.grew_requester;
      grew_running = λ x. ih.grew_running x ∙ ground (arith, contains-add cap x info.running_caps);
    }

get-start_cap :
    (rid cap : String) (allowed : Option (List String)) (info : Request) (a : NluAgent)
    → split_id rid ≡ none
    → get rid (start_cap rid cap allowed info a).1.active_requests ≡ some (started rid cap info)
unfolding start_cap
get-start_cap rid cap allowed info a h =
    get-put (sub_id rid cap) rid _ _ ∙ rw (sub_id-ne rid cap h) (get-put_self rid _ _)

pub get-start_all :
    (rid : String) (caps : List String) (allowed : Option (List String)) (info : Request)
    (a : NluAgent)
    → split_id rid ≡ none
    → get rid a.active_requests ≡ some info
    → get rid (start_all rid caps allowed info a).active_requests ≡ some (started_all rid caps info)
unfolding start_all started_all
get-start_all rid [] allowed info a h e = e
get-start_all rid (cap ∷ caps) allowed info a h e =
    get-start_all rid caps allowed (started rid cap info) (start_cap rid cap allowed info a).1 h
      (get-start_cap rid cap allowed info a h)

module _ (g : Dag) where
  -- What holds of a request with the graph between two answers.
  pub record IsUnder (info : Request) : Type 0 where
    pub has_dag : info.dag ≡ some g
    pub completed_known : Within info.completed_caps (keys g)
    pub running_known : Within info.running_caps (keys g)
    pub distinct : is_distinct info.completed_caps ≡ true
    pub apart :
        (x : String) → contains x info.running_caps ≡ true → contains x info.completed_caps ≡ false
    pub running_ordered :
        (x d : String)
        → contains x info.running_caps ≡ true
        → Needs g d x
        → contains d info.completed_caps ≡ true
    pub completed_ordered :
        (x d : String)
        → contains x info.completed_caps ≡ true
        → Needs g d x
        → contains d info.completed_caps ≡ true

  -- The graph that `_normalize_classification` gives, if its dependencies are in it.
  pub record IsSoundGraph : Type 0 where
    pub acyclic : IsAcyclic g
    pub closed : IsClosed g
    pub unique : is_distinct (keys g) ≡ true
    pub named : contains "" (keys g) ≡ false

  -- Ready capabilities start.
  pub started-IsUnder :
      (info info' : Request)
      → is_distinct (keys g) ≡ true
      → IsUnder info
      → Grew (ready_caps info.completed_caps info.running_caps g) info info'
      → IsUnder info'
  started-IsUnder info info' u i w =
      let c = info.completed_caps in
      let r = info.running_caps in
      let new = λ (x : String). ready-new c r x g in
      record {
        has_dag = w.grew_dag ∙ i.has_dag;
        completed_known = rw w.grew_completed i.completed_known;
        running_known = λ x h. ground (arith, w.grew_running x, i.running_known x, new x);
        distinct = rw w.grew_completed i.distinct;
        apart = λ x h. rw w.grew_completed (ground (arith, w.grew_running x, i.apart x, new x));
        running_ordered = λ x d h n. rw w.grew_completed (elim (Bool-cases (contains x r)) [
          | inl old ↦ i.running_ordered x d old n
          | inr fresh ↦
              Within-of_all_in c (deps_of x g)
                (ready-deps c r x g u (ground (arith, w.grew_running x))) d n
        ]);
        completed_ordered = λ x d h n.
            rw w.grew_completed
              (i.completed_ordered x d (ap (contains x) (sym w.grew_completed) ∙ h) n);
      }

  -- The answer of a running capability is recorded.
  pub answered-IsUnder :
      (cap : String) (info info' : Request)
      → IsUnder info
      → contains cap info.running_caps ≡ true
      → info'.dag ≡ info.dag
      → info'.completed_caps ≡ add cap info.completed_caps
      → info'.running_caps ≡ discard cap info.running_caps
      → IsUnder info'
  answered-IsUnder cap info info' i k ed ec er =
      let c = info.completed_caps in
      let r = info.running_caps in
      let added = λ (x : String). ap (contains x) ec ∙ contains-add cap x c in
      let left = λ (x : String). ap (contains x) er ∙ contains-discard cap x r in
      record {
        has_dag = ed ∙ i.has_dag;
        completed_known = λ x h.
            ground (arith, added x, i.completed_known x, i.running_known cap k, str_eq_iff cap x);
        running_known = λ x h. ground (arith, left x, i.running_known x);
        distinct = rw ec (is_distinct-add cap c i.distinct);
        apart =
            λ x h. ground (arith, left x, added x, i.apart x, str_eq_iff cap x, str_eq_iff x cap);
        running_ordered = λ x d h n. ground (arith, left x, added d, i.running_ordered x d);
        completed_ordered = λ x d h n. ground (
          arith,
          added x,
          added d,
          i.completed_ordered x d,
          i.running_ordered cap d k,
          str_eq_iff cap x,
        );
      }
