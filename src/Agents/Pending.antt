-- ===== src/Agents/Pending.antt =====
-- services/agent_registry.py: `AgentSession.send_cmd` and `deliver`. A command waits on the event
-- loop, and other commands and frames come between its start and its end, so each is split into the
-- steps that run without a break.
use tantor_v.Prelude.{
  String, ◌≡◌, ◌≢◌, refl, ◌∙◌, inl, inr, Bool, true, false, Option, none, some, List, [], ◌∷◌, ◌++◌,
  ◌==◌, eq_iff, eq_refl, All, arith, ap, Bool-cases, if◌then◌else◌,
}
use tantor_v.Prelude.Dict.{Dict, lookup, insert, erase, lookup-insert, lookup-erase}
use tantor_v.Json.{Value}

-- What `send_cmd` returns: {"ok": True, "result": …} or {"ok": False, "error": …}.
pub data Answer : Type 0 where
  result error : Dict Value → Answer

-- A future, and what it was resolved with.
pub data Future : Type 0 where
  waiting : Future
  done : Answer → Future

pub record Frame : Type 0 where
  pub kind : Option String
  pub ref : Option String
  pub payload : Option (Dict Value)

-- `frame.get("payload") or {}`
abbrev pub payload_of : Frame → Dict Value
payload_of f = elim f.payload [ none ↦ [] | some p ↦ p ]

-- What a frame resolves a future with; `none` where its kind is neither "result" nor "error".
abbrev kind_answer : Option String → Dict Value → Option Answer
kind_answer none p = none
kind_answer (some k) p =
    if k == "result" then some (result p) else if k == "error" then some (error p) else none

abbrev pub answer_of : Frame → Option Answer
answer_of f = kind_answer f.kind (payload_of f)

abbrev pub Pending : Type 0
Pending = Dict Future

-- `fut.set_result(…)` on the future of this id, if it is still waiting.
abbrev resolve : String → Option Future → Option Answer → Pending → Pending × Bool
resolve ref (some waiting) (some a) p = (insert ref (done a) p, true)
resolve ref (some waiting) none p = (p, false)
resolve ref (some (done _)) a p = (p, false)
resolve ref none a p = (p, false)

-- `if not ref: return False`
abbrev deliver_to : Option String → Frame → Pending → Pending × Bool
deliver_to none f p = (p, false)
deliver_to (some ref) f p =
    if ref == "" then (p, false) else resolve ref (lookup ref p) (answer_of f) p

pub deliver : Frame → Pending → Pending × Bool
deliver f p = deliver_to f.ref f p

-- `self.pending[frame_id] = fut`, before the frame is sent.
pub begin_cmd : String → Pending → Pending
begin_cmd id p = insert id waiting p

-- The future's value is returned, `none` is a timeout, and the entry goes in either case.
abbrev value_of : Option Future → Option Answer
value_of (some (done a)) = some a
value_of _ = none

pub finish_cmd : String → Pending → Option Answer × Pending
finish_cmd id p = (value_of (lookup id p), erase id p)

-- The steps of one session, in the order in which the event loop runs them.
pub data Step : Type 0 where
  begins finishes : String → Step
  delivers : Frame → Step

pub step : Pending → Step → Pending
unfolding begin_cmd finish_cmd deliver
step p (begins id) = begin_cmd id p
step p (finishes id) = (finish_cmd id p).1
step p (delivers f) = (deliver f p).0

pub run : Pending → List Step → Pending
run p [] = p
run p (s ∷ rest) = run (step p s) rest

-- The command of this id neither begins nor ends.
abbrev pub LeavesOpen : String → Step → Type 0
LeavesOpen id (begins j) = (j == id) ≡ false
LeavesOpen id (finishes j) = (j == id) ≡ false
LeavesOpen id (delivers f) = Unit

-- Besides, no frame refers to it.
abbrev pub Ignores : String → Step → Type 0
Ignores id (delivers f) = f.ref ≢ some id
Ignores id s = LeavesOpen id s

resolve_other :
    (ref id : String) (o : Option Future) (a : Option Answer) (p : Pending)
    → (ref == id) ≡ false
    → lookup id (resolve ref o a p).0 ≡ lookup id p
resolve_other ref id (some waiting) (some a) p h = rw lookup-insert (rw h refl)
resolve_other ref id (some waiting) none p h = refl
resolve_other ref id (some (done _)) a p h = refl
resolve_other ref id none a p h = refl

eq_false : (s t : String) → s ≢ t → (s == t) ≡ false
eq_false s t n = ground (arith, eq_iff s t)

step-Ignores :
    (id : String) (s : Step) (p : Pending) → Ignores id s → lookup id (step p s) ≡ lookup id p
unfolding step
step-Ignores id (begins j) p h = rw lookup-insert (rw h refl)
step-Ignores id (finishes j) p h = rw lookup-erase (rw h refl)
step-Ignores id (delivers f) p h = reach f.ref refl
  where
    reach : (r : Option String) → f.ref ≡ r → lookup id (deliver_to r f p).0 ≡ lookup id p
    reach none e = refl
    reach (some ref) e = elim (Bool-cases (ref == "")) [
      | inl blank ↦ rw blank refl
      | inr named ↦ rw named (
          resolve_other ref id (lookup ref p) (answer_of f) p
            (eq_false ref id (λ same. h (e ∙ ap some same))))
    ]

-- A resolved future keeps its value until its command ends.
resolve_done :
    (ref id : String) (a : Answer) (o : Option Answer) (p : Pending)
    → lookup id p ≡ some (done a)
    → lookup id (resolve ref (lookup ref p) o p).0 ≡ some (done a)
resolve_done ref id a o p h = elim (Bool-cases (ref == id)) [
  | inl same ↦
      let e : ref ≡ id = (eq_iff ref id).0 same in
      let found : lookup ref p ≡ some (done a) = rw e h in rw found h
  | inr other ↦ resolve_other ref id (lookup ref p) o p other ∙ h
]

step_done :
    (id : String) (a : Answer) (s : Step) (p : Pending)
    → LeavesOpen id s
    → lookup id p ≡ some (done a)
    → lookup id (step p s) ≡ some (done a)
unfolding step
step_done id a (begins j) p l h = rw lookup-insert (rw l h)
step_done id a (finishes j) p l h = rw lookup-erase (rw l h)
step_done id a (delivers f) p l h = reach f.ref
  where
    reach : (r : Option String) → lookup id (deliver_to r f p).0 ≡ some (done a)
    reach none = h
    reach (some ref) = elim (Bool-cases (ref == "")) [
      | inl blank ↦ rw blank h
      | inr named ↦ rw named (resolve_done ref id a (answer_of f) p h)
    ]

run-Ignores :
    (id : String) (steps : List Step) (p : Pending)
    → All (Ignores id) steps
    → lookup id (run p steps) ≡ lookup id p
unfolding run
run-Ignores id [] p h = refl
run-Ignores id (s ∷ rest) p h = run-Ignores id rest (step p s) h.1 ∙ step-Ignores id s p h.0

run_done :
    (id : String) (a : Answer) (steps : List Step) (p : Pending)
    → All (LeavesOpen id) steps
    → lookup id p ≡ some (done a)
    → lookup id (run p steps) ≡ some (done a)
unfolding run
run_done id a [] p l h = h
run_done id a (s ∷ rest) p l h = run_done id a rest (step p s) l.1 (step_done id a s p l.0 h)

run-append : (p : Pending) (xs ys : List Step) → run p (xs ++ ys) ≡ run (run p xs) ys
unfolding run
run-append p [] ys = refl
run-append p (x ∷ xs) ys = run-append (step p x) xs ys

deliver_waiting :
    (id : String) (f : Frame) (a : Answer) (p : Pending)
    → (id == "") ≡ false
    → f.ref ≡ some id
    → answer_of f ≡ some a
    → lookup id p ≡ some waiting
    → lookup id (deliver f p).0 ≡ some (done a)
unfolding deliver
deliver_waiting id f a p named to is waits =
    rw (to, named, waits, is) (simp (lookup-insert, eq_refl))

-- A command gets the first answer to it, whatever else runs on the session: let it begin, let other
-- commands begin and end and frames with other references arrive, let a result or error frame with
-- its id arrive, and let anything run, later answers to it included, that neither begins nor ends it.
-- Then it returns that frame's payload, as a result or an error by the frame's kind, and waits no more.
pub finish_cmd-first_answer :
    (id : String) (f : Frame) (a : Answer) (before after : List Step) (p : Pending)
    → (id == "") ≡ false
    → f.ref ≡ some id
    → answer_of f ≡ some a
    → All (Ignores id) before
    → All (LeavesOpen id) after
    → let p' = run p (begins id ∷ before ++ delivers f ∷ after) in
      ((finish_cmd id p').0 ≡ some a) × (lookup id (finish_cmd id p').1 ≡ none)
unfolding run finish_cmd step begin_cmd
finish_cmd-first_answer id f a before after p named to is ignored open_after =
    let started : lookup id (insert id waiting p) ≡ some waiting = simp (lookup-insert, eq_refl) in
    let quiet : lookup id (run (insert id waiting p) before) ≡ some waiting =
      run-Ignores id before (insert id waiting p) ignored ∙ started in
    let answered : lookup id (run p (begins id ∷ before ++ delivers f ∷ after)) ≡ some (done a) =
      rw (run-append (insert id waiting p) before (delivers f ∷ after)) (
        run_done id a after _ open_after
          (deliver_waiting id f a (run (insert id waiting p) before) named to is quiet)) in
    (rw answered refl, simp (lookup-erase, eq_refl))
