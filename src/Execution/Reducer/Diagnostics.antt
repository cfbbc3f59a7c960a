-- ===== src/Execution/Reducer/Diagnostics.antt =====
-- The diagnostics of the reducer: at most a hundred, and none twice.
use deepseek_harness_communi.Prelude.{
  ℕ, ◌≤◌, ◌<◌, ◌≡◌, refl, false, not, ◌||◌, inl, inr, Option, none, some, List, [], ◌∷◌, ◌++◌,
  String, is_some, map, Bool-cases, Option-cases, ◌==◌, string_eq, option_eq, ==_iff, arith, leb,
  length, length-append,
}
use deepseek_harness_communi.Prelude.Table.{lookup}
use deepseek_harness_communi.Execution.Types.{
  ExecutionNode, ExecutionDiagnosticCode, ExecutionDiagnostic,
}
use deepseek_harness_communi.Execution.Reducer.{
  declare, start, settle, seq_of, is_pending, differs, same_identity, diagnostic_key,
  execution_diagnostic_limit, Call, declares, starts, settles, diagnoses, step, run, empty, set_add,
  ExecutionReducer, member, is_settled, add, close, set_state, diagnose, diagnose_missing_parent,
}

-- No text stands after an equal one.
abbrev pub IsUnique : List String → Type 0
IsUnique [] = Unit
IsUnique (k ∷ ks) = (member k ks ≡ false) × IsUnique ks

module _ (text : ℕ → String) where
  abbrev pub identity : ExecutionDiagnostic → String
  identity d = diagnostic_key text d.code d.message d.key d.seq

  pub record IsReported (r : ExecutionReducer) : Type 0 where
    pub within : length r.issues ≤ 100
    pub named : r.diagnostic_keys ≡ map identity r.issues
    pub unique : IsUnique r.diagnostic_keys

map-append_one :
    {A B : Type 0} (f : A → B) (xs : List A) (x : A)
    → map f (xs ++ (x ∷ [])) ≡ map f xs ++ (f x ∷ [])
map-append_one f [] x = refl
map-append_one f (y ∷ xs) x = rw (map-append_one f xs x)

member-append_one :
    (j : String) (ks : List String) (k : String)
    → member j (ks ++ (k ∷ [])) ≡ (member j ks || k == j)
member-append_one j [] k = ground arith
member-append_one j (i ∷ ks) k = ground (arith, member-append_one j ks k)

IsUnique-append :
    (ks : List String) (k : String) → IsUnique ks → member k ks ≡ false → IsUnique (ks ++ (k ∷ []))
IsUnique-append [] k u new = (refl, tt)
IsUnique-append (j ∷ ks) k u new = (
  ground
      (arith, new, u.0, member-append_one j ks k, ==_iff {A = String} j k, ==_iff {A = String} k j),
  IsUnique-append ks k u.1 (ground (arith, new)),
)

module _ (text : ℕ → String) where
  diagnose-IsReported :
      (r : ExecutionReducer) (code : ExecutionDiagnosticCode) (message : String)
      (key : Option String) (seq : Option ℕ)
      → IsReported text r
      → IsReported text (diagnose text r code message key seq)
  unfolding diagnose set_add
  diagnose-IsReported r code message key seq v =
      elim (Bool-cases (
        member (diagnostic_key text code message key seq) r.diagnostic_keys
        || leb execution_diagnostic_limit (length r.issues))) [
          | inl known ↦ rw known v
          | inr new ↦
              let absent : member (diagnostic_key text code message key seq) r.diagnostic_keys
                  ≡ false =
                ground arith in
              let room : length r.issues < 100 = ground arith in
              rw (new, absent)
                (record {
                  within = omega (
                    arith,
                    room,
                    length-append r.issues
                        (record { code = code; message = message; key = key; seq = seq } ∷ []),
                  );
                  named =
                      rw
                        (
                          v.named,
                          map-append_one (identity text) r.issues
                              (record { code = code; message = message; key = key; seq = seq }),
                        )
                        refl;
                  unique =
                      IsUnique-append r.diagnostic_keys (diagnostic_key text code message key seq)
                        v.unique absent;
                })
        ]

  same-IsReported :
      (r r' : ExecutionReducer)
      → r'.issues ≡ r.issues
      → r'.diagnostic_keys ≡ r.diagnostic_keys
      → IsReported text r
      → IsReported text r'
  same-IsReported r r' e f v = record {
    within = rw e v.within;
    named = rw (e, f) v.named;
    unique = rw f v.unique;
  }

  add-IsReported :
      (r : ExecutionReducer) (node : ExecutionNode)
      → IsReported text r
      → IsReported text (add r node)
  unfolding add
  add-IsReported r node v = same-IsReported r (add r node) (ground arith) (ground arith) v

  missing-IsReported :
      (r : ExecutionReducer) (parent : Option String) (key : String) (seq : Option ℕ)
      → IsReported text r
      → IsReported text (diagnose_missing_parent text r parent key seq)
  unfolding diagnose_missing_parent
  missing-IsReported r none key seq v = v
  missing-IsReported r (some parent) key seq v =
      elim (Bool-cases (not (is_some (lookup parent r.nodes)))) [
        | inl missing ↦ rw (missing, diagnose_missing_parent) (diagnose-IsReported r _ _ _ _ v)
        | inr present ↦ rw (present, diagnose_missing_parent) v
      ]

  added-IsReported :
      (r : ExecutionReducer) (parent : Option String) (key : String) (seq : Option ℕ)
      (node : ExecutionNode)
      → IsReported text r
      → IsReported text (add (diagnose_missing_parent text r parent key seq) node)
  added-IsReported r parent key seq node v =
      add-IsReported (diagnose_missing_parent text r parent key seq) node
        (missing-IsReported r parent key seq v)

  -- Every method reports by `diagnose` alone.
  step-IsReported :
      (r : ExecutionReducer) (c : Call) → IsReported text r → IsReported text (step text r c)
  unfolding step declare start settle
  step-IsReported r (diagnoses code message key seq) v =
      diagnose-IsReported r code message key seq v
  step-IsReported r (declares key kind parent at durability) v =
      elim (Option-cases (lookup key r.nodes)) [
        | inl new ↦ rw (new, declare) (added-IsReported r parent key (seq_of at) _ v)
        | inr (current, found) ↦
            rw (found, declare)
              (elim (Bool-cases (not (same_identity current kind parent))) [
                | inl changed ↦ rw changed (diagnose-IsReported r _ _ _ _ v)
                | inr same ↦ rw same (elim (Bool-cases (is_settled current.state)) [
                  | inl over ↦ rw over (diagnose-IsReported r _ _ _ _ v)
                  | inr live ↦ rw live v
                ])
              ])
      ]
  step-IsReported r (starts key kind parent at durability) v =
      elim (Option-cases (lookup key r.nodes)) [
        | inl new ↦ rw (new, start) (added-IsReported r parent key at.seq _ v)
        | inr (current, found) ↦
            rw (found, start)
              (elim (Bool-cases (not (same_identity current kind parent))) [
                | inl changed ↦ rw changed (diagnose-IsReported r _ _ _ _ v)
                | inr same ↦ rw same (elim (Bool-cases (is_pending current.state)) [
                  | inl idle ↦
                      rw idle (
                        same-IsReported r _ (unfold set_state in refl) (unfold set_state in refl) v)
                  | inr begun ↦ rw begun (elim (Bool-cases (is_settled current.state)) [
                    | inl over ↦ rw over (diagnose-IsReported r _ _ _ _ v)
                    | inr live ↦ rw live v
                  ])
                ])
              ])
      ]
  step-IsReported r (settles key kind parent outcome at error) v =
      elim (Option-cases (lookup key r.nodes)) [
        | inl new ↦
            rw (new, settle)
              (diagnose-IsReported _ _ _ _ _ (added-IsReported r parent key at.seq _ v))
        | inr (current, found) ↦
            rw (found, settle)
              (elim (Bool-cases (not (same_identity current kind parent))) [
                | inl changed ↦ rw changed (diagnose-IsReported r _ _ _ _ v)
                | inr same ↦ rw same (elim (Bool-cases (is_settled current.state)) [
                  | inl over ↦ rw over (elim (Bool-cases (differs outcome current.state)) [
                    | inl conflict ↦ rw conflict (diagnose-IsReported r _ _ _ _ v)
                    | inr agree ↦ rw agree v
                  ])
                  | inr live ↦ rw live (
                      same-IsReported r _ (unfold close set_state in refl)
                        (unfold close set_state in refl) v)
                ])
              ])
      ]

  run-IsReported :
      (r : ExecutionReducer) (cs : List Call) → IsReported text r → IsReported text (run text r cs)
  unfolding run
  run-IsReported r [] v = v
  run-IsReported r (c ∷ cs) v = run-IsReported (step text r c) cs (step-IsReported r c v)

-- After any calls the reducer holds at most 100 diagnostics, its diagnostic keys are the identities
-- of these in order, and no identity occurs twice.
pub run-empty-IsReported :
    (text : ℕ → String) (cs : List Call) → IsReported text (run text empty cs)
run-empty-IsReported text cs =
    run-IsReported text empty cs (record { within = omega arith; named = refl; unique = tt })
