-- ===== src/Access/Answers.antt =====
-- About toDecision and the calls before it in app/backend/src/bart/access.service.ts: what the engine
-- is asked, and what becomes of its answer.
use mathlib.Core.List.{append_assoc}
use bart_share.Text.{Str, codes, show_nat}
use bart_share.Attrs.{BartAttrs}
use bart_share.Closure.{PartyIndex}
use bart_share.Emitter.{
  RequestTarget, emit_request, request_text, quantifier_text, BartEmitError, emit_attrs,
}
use bart_share.Evaluator.{Thrown, EvaluationResult, EvaluateBody, SatisfiedRequest}
use bart_share.Assembly.{
  AssembledSystem, AssemblyError, TextOwners, call_blaming, evaluate_assembled,
}
use bart_share.Access.{AccessDecision, to_decision, decided_request, party_at, emitted, decide_with}
use bart_share.Prelude.{
  sym, ap, ◌∙◌, ◌≡◌, List, [], ◌∷◌, ◌++◌, map, some, Option, Outcome, ok, throw, >>=-eq-ok,
  ok_injective, throw-ne-ok,
}

emitted-ok : (m : Outcome BartEmitError Str) (text : Str) → emitted m ≡ ok text → m ≡ ok text
unfolding emitted
emitted-ok (ok t) text h = ap ok (ok_injective t text h)
emitted-ok (throw e) text h = absurd (throw-ne-ok _ _ h)

call_blaming-ok :
    {O A : Type 0} (m : Outcome (Thrown O) A) (texts : List Str) (owners : TextOwners) (value : A)
    → call_blaming m texts owners ≡ ok value
    → m ≡ ok value
unfolding call_blaming
call_blaming-ok (ok v) texts owners value h = h
call_blaming-ok (throw e) texts owners value h = absurd (throw-ne-ok _ _ h)

-- The text of a request that is written is that of its resource and of its parties.
emit_request-text :
    (resource : BartAttrs) (target : RequestTarget) (line : Str)
    → emit_request 1 resource target ≡ ok line
    → (written wanted : Str) × (emit_attrs resource ≡ ok written)
      × (emit_attrs target.attrs ≡ ok wanted)
      × (line
          ≡ codes "1 : (resource:"
            ++ (written
                ++ (codes ", from:("
                    ++ (quantifier_text target.quantifier
                        ++ (codes ":" ++ (wanted ++ codes "))"))))))
unfolding emit_request request_text show_nat
emit_request-text [] target line h = absurd (throw-ne-ok _ _ h)
emit_request-text (a ∷ r) target line h =
    let (written, first, h1) = >>=-eq-ok (emit_attrs (a ∷ r)) _ h in
    let (wanted, second, h2) = >>=-eq-ok (emit_attrs target.attrs) _ h1 in
    (written, wanted, first, second, sym (ok_injective _ line h2))

-- The engine was asked in this system, on behalf of its first party, for a resource of these parties,
-- and the decision is what it answered, its numbers read as the ids of the parties, counted from 1.
pub record IsAnswered (answer : EvaluateBody → Outcome (Thrown AssemblyError) EvaluationResult)
    (system : AssembledSystem) (resource : BartAttrs) (others : Str) (d : AccessDecision)
    : Type 0 where
  pub written : Str
  pub resource_text : emit_attrs resource ≡ ok written
  pub result : EvaluationResult
  pub asked :
      answer (record {
        policies = system.policies;
        context = system.context;
        request =
            codes "1 : (resource:" ++ (written ++ (codes ", from:(" ++ (others ++ codes "))")));
      })
      ≡ ok result
  pub decided : d.permitted ≡ result.permitted
  pub told :
      d.evaluation
      ≡ some (record {
        parties = system.parties;
        requests =
            map
              (λ (s : SatisfiedRequest). record {
                requester = party_at system.parties s.requester;
                from = party_at system.parties s.from;
                resource = s.resource;
              })
              result.requests;
        trace = result.trace;
        scenario = result.scenario;
      })

module _ (assemble : List Str → Option PartyIndex → Outcome (Thrown AssemblyError) AssembledSystem)
    (answer : EvaluateBody → Outcome (Thrown AssemblyError) EvaluationResult) where
  pub decide_with-IsAnswered :
      (system : AssembledSystem) (attrs : BartAttrs) (target : RequestTarget) (d : AccessDecision)
      → decide_with assemble (evaluate_assembled answer) system attrs target ≡ ok d
      → (wanted : Str) × (emit_attrs target.attrs ≡ ok wanted)
        × IsAnswered answer system attrs
            (quantifier_text target.quantifier ++ (codes ":" ++ wanted))
            d
  unfolding decide_with evaluate_assembled to_decision decided_request
  decide_with-IsAnswered system attrs target d h =
      let (line, ready, h1) = >>=-eq-ok (emitted (emit_request 1 attrs target)) _ h in
      let (result, answered, h2) = >>=-eq-ok (evaluate_assembled answer system line) _ h1 in
      let (written, wanted, first, second, same) =
        emit_request-text attrs target line (emitted-ok _ line ready) in
      let others : line
          ≡ codes "1 : (resource:"
            ++ (written
                ++ (codes ", from:("
                    ++ ((quantifier_text target.quantifier ++ (codes ":" ++ wanted))
                        ++ codes "))"))) =
        same
        ∙ ap (λ x. codes "1 : (resource:" ++ (written ++ (codes ", from:(" ++ x)))
            (sym (
              append_assoc (quantifier_text target.quantifier) (codes ":" ++ wanted)
                (codes "))"))) in
      let is : d ≡ to_decision system.parties result = sym (ok_injective _ d h2) in
      (
        wanted,
        second,
        record {
          written = written;
          resource_text = first;
          result = result;
          asked =
              ap
                (λ x.
                  answer
                    (record { policies = system.policies; context = system.context; request = x }))
                (sym others)
              ∙ call_blaming-ok _ system.policies system.text_owners result answered;
          decided = ap (λ (x : AccessDecision). x.permitted) is;
          told = ap (λ (x : AccessDecision). x.evaluation) is;
        },
      )
