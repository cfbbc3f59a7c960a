-- ===== src/Execution/Reducer/Arrival.antt =====
-- The order in which the keys of the executions arrive.
use deepseek_harness_communi.Prelude.{
  ℕ, ◌≡◌, refl, ap, sym, ◌∙◌, true, false, not, inl, inr, Option, none, some, List, [], ◌∷◌, ◌++◌,
  String, is_some, filter, Bool-cases, Option-cases, ◌==◌, string_eq, ==_iff, arith,
}
use Prim.Native.String.{◌++◌ as text_append}
use mathlib.Core.List.{append_assoc, append-nil}
use deepseek_harness_communi.Prelude.Table.{lookup}
use deepseek_harness_communi.Execution.Types.{
  ExecutionKind, ExecutionOutcome, ExecutionBoundary, ExecutionError, Durability, ExecutionNode,
  ExecutionDiagnosticCode, settled, durable, missing_start,
}
use deepseek_harness_communi.Execution.Reducer.{
  ExecutionReducer, empty, member, set_add, diagnose, diagnose_missing_parent, add, close,
  set_state, declare, start, settle, Call, declares, starts, settles, diagnoses, step, run,
}
use deepseek_harness_communi.Execution.Reducer.Open.{IsValid, member-append}
use deepseek_harness_communi.Execution.Reducer.Indices.{step-IsValid, empty-IsValid}

-- The keys that the calls name, one for each call that names one.
abbrev pub call_keys : List Call → List String
call_keys [] = []
call_keys (declares key kind parent at durability ∷ cs) = key ∷ call_keys cs
call_keys (starts key kind parent at durability ∷ cs) = key ∷ call_keys cs
call_keys (settles key kind parent outcome at error ∷ cs) = key ∷ call_keys cs
call_keys (diagnoses code message key seq ∷ cs) = call_keys cs

abbrev pub without : String → List String → List String
without k ks = filter (λ j. not (j == k)) ks

-- Each key once, where it comes first.
abbrev pub first_arrivals : List String → List String
first_arrivals [] = []
first_arrivals (k ∷ ks) = k ∷ without k (first_arrivals ks)

-- What is not among the keys `known`.
abbrev news : List String → List String → List String
news known ks = filter (λ j. not (member j known)) ks

news-nil : (ks : List String) → news [] ks ≡ ks
news-nil [] = refl
news-nil (k ∷ ks) = ap (λ rest. k ∷ rest) (news-nil ks)

news-without :
    (known : List String) (k : String) (ks : List String)
    → member k known ≡ true
    → news known (without k ks) ≡ news known ks
news-without known k [] h = refl
news-without known k (j ∷ ks) h = elim (Bool-cases (j == k)) [
  | inl e ↦
      let same : member j known ≡ true = rw ((==_iff {A = String} j k).0 e) h in
      rw (e, same) (news-without known k ks h)
  | inr e ↦ rw e (elim (Bool-cases (member j known)) [
    | inl old ↦ rw old (news-without known k ks h)
    | inr new ↦ rw new (ap (λ rest. j ∷ rest) (news-without known k ks h))
  ])
]

news-append :
    (known : List String) (k : String) (ks : List String)
    → news (known ++ (k ∷ [])) ks ≡ news known (without k ks)
news-append known k [] = refl
news-append known k (j ∷ ks) = ground (
  arith,
  news-append known k ks,
  member-append j known (k ∷ []),
  ==_iff {A = String} j k,
  ==_iff {A = String} k j,
)

news-set_add :
    (known : List String) (k : String) (ks : List String)
    → set_add k known ++ news (set_add k known) (first_arrivals ks)
      ≡ known ++ news known (first_arrivals (k ∷ ks))
unfolding set_add
news-set_add known k ks = elim (Bool-cases (member k known)) [
  | inl old ↦ rw (old, news-without known k (first_arrivals ks) old) refl
  | inr new ↦
      rw (new, news-append known k (first_arrivals ks))
        (append_assoc known (k ∷ []) (news known (without k (first_arrivals ks))))
]

module _ (number_text : ℕ → String) where
  diagnose-order :
      (r : ExecutionReducer) (code : ExecutionDiagnosticCode) (message : String)
      (key : Option String) (seq : Option ℕ)
      → (diagnose number_text r code message key seq).order ≡ r.order
  unfolding diagnose
  diagnose-order r code message key seq = ground arith

  diagnose_missing_parent-order :
      (r : ExecutionReducer) (parent : Option String) (key : String) (seq : Option ℕ)
      → (diagnose_missing_parent number_text r parent key seq).order ≡ r.order
  unfolding diagnose_missing_parent diagnose
  diagnose_missing_parent-order r none key seq = refl
  diagnose_missing_parent-order r (some parent) key seq = ground arith

  add-order :
      (r : ExecutionReducer) (node : ExecutionNode)
      → (add r node).order ≡ r.order ++ (node.key ∷ [])
  unfolding add
  add-order r node = ground arith

  set_add-new :
      (r : ExecutionReducer) (key : String)
      → IsValid r
      → lookup key r.nodes ≡ none
      → r.order ++ (key ∷ []) ≡ set_add key r.order
  unfolding set_add
  set_add-new r key v new =
      let missing : member key r.order ≡ false = v.ordered key ∙ ap is_some new in rw missing refl

  set_add-known :
      (r : ExecutionReducer) (key : String) (node : ExecutionNode)
      → IsValid r
      → lookup key r.nodes ≡ some node
      → r.order ≡ set_add key r.order
  unfolding set_add
  set_add-known r key node v found =
      let known : member key r.order ≡ true = v.ordered key ∙ ap is_some found in rw known refl

  -- A node under a new key, its missing parent reported.
  added-order :
      (r : ExecutionReducer) (node : ExecutionNode) (parent : Option String) (seq : Option ℕ)
      → IsValid r
      → lookup node.key r.nodes ≡ none
      → (add (diagnose_missing_parent number_text r parent node.key seq) node).order
        ≡ set_add node.key r.order
  added-order r node parent seq v new =
      add-order (diagnose_missing_parent number_text r parent node.key seq) node
      ∙ (ap (λ ks. ks ++ (node.key ∷ [])) (diagnose_missing_parent-order r parent node.key seq)
          ∙ set_add-new r node.key v new)

  declare-order :
      (r : ExecutionReducer) (key : String) (kind : ExecutionKind) (parent : Option String)
      (at : Option ExecutionBoundary) (durability : Durability)
      → IsValid r
      → (declare number_text r key kind parent at durability).order ≡ set_add key r.order
  unfolding declare diagnose
  declare-order r key kind parent at durability v = elim (Option-cases (lookup key r.nodes)) [
    | inl new ↦ rw (new, declare) (added-order r _ parent _ v new)
    | inr (current, found) ↦
        rw (found, declare)
          (let known = set_add-known r key current v found in ground (arith, known))
  ]

  start-order :
      (r : ExecutionReducer) (key : String) (kind : ExecutionKind) (parent : Option String)
      (at : ExecutionBoundary) (durability : Durability)
      → IsValid r
      → (start number_text r key kind parent at durability).order ≡ set_add key r.order
  unfolding start diagnose set_state
  start-order r key kind parent at durability v = elim (Option-cases (lookup key r.nodes)) [
    | inl new ↦ rw (new, start) (added-order r _ parent _ v new)
    | inr (current, found) ↦
        rw (found, start) (let known = set_add-known r key current v found in ground (arith, known))
  ]

  settle-order :
      (r : ExecutionReducer) (key : String) (kind : ExecutionKind) (parent : Option String)
      (outcome : ExecutionOutcome) (at : ExecutionBoundary) (error : Option ExecutionError)
      → IsValid r
      → (settle number_text r key kind parent outcome at error).order ≡ set_add key r.order
  unfolding settle diagnose set_state close
  settle-order r key kind parent outcome at error v = elim (Option-cases (lookup key r.nodes)) [
    | inl new ↦
        let node : ExecutionNode = record {
          key = key;
          kind = kind;
          parent_key = parent;
          state = settled outcome none at error;
          durability = durable;
        } in
        rw (new, settle)
          (diagnose-order (add (diagnose_missing_parent number_text r parent key at.seq) node)
              missing_start
              (text_append "Execution " (text_append key " settled without a visible start."))
              (some key) at.seq
            ∙ added-order r node parent at.seq v new)
    | inr (current, found) ↦
        rw (found, settle)
          (let known = set_add-known r key current v found in ground (arith, known))
  ]

  run-order :
      (r : ExecutionReducer) (cs : List Call)
      → IsValid r
      → (run number_text r cs).order ≡ r.order ++ news r.order (first_arrivals (call_keys cs))
  unfolding run step
  run-order r [] v = sym (append-nil r.order)
  run-order r (declares key kind parent at durability ∷ cs) v =
      let once = declare-order r key kind parent at durability v in
      run-order (declare number_text r key kind parent at durability) cs
        (step-IsValid number_text r (declares key kind parent at durability) v)
      ∙ (ap (λ known. known ++ news known (first_arrivals (call_keys cs))) once
          ∙ news-set_add r.order key (call_keys cs))
  run-order r (starts key kind parent at durability ∷ cs) v =
      let once = start-order r key kind parent at durability v in
      run-order (start number_text r key kind parent at durability) cs
        (step-IsValid number_text r (starts key kind parent at durability) v)
      ∙ (ap (λ known. known ++ news known (first_arrivals (call_keys cs))) once
          ∙ news-set_add r.order key (call_keys cs))
  run-order r (settles key kind parent outcome at error ∷ cs) v =
      let once = settle-order r key kind parent outcome at error v in
      run-order (settle number_text r key kind parent outcome at error) cs
        (step-IsValid number_text r (settles key kind parent outcome at error) v)
      ∙ (ap (λ known. known ++ news known (first_arrivals (call_keys cs))) once
          ∙ news-set_add r.order key (call_keys cs))
  run-order r (diagnoses code message key seq ∷ cs) v =
      run-order (diagnose number_text r code message key seq) cs
        (step-IsValid number_text r (diagnoses code message key seq) v)
      ∙ ap (λ known. known ++ news known (first_arrivals (call_keys cs)))
          (diagnose-order r code message key seq)

  -- After any calls the keys of the nodes stand in the order in which calls first named them.
  pub order-run :
      (cs : List Call) → (run number_text empty cs).order ≡ first_arrivals (call_keys cs)
  order-run cs = run-order empty cs empty-IsValid ∙ news-nil (first_arrivals (call_keys cs))
