-- ===== src/Tests/Answers.antt =====
-- The coverage, the context, its report, and the evaluator's client.
use Prim.Native.String.{String}
use bart_share.Text.{Str, codes, str_eq, includes, show_nat}
use bart_share.Number.{number_of, number_text}
use bart_share.Attrs.{BartScalar, BartValue, scalar, BartAttrs, own, inherited, is_in}
use bart_share.Emitter.Grammar.{is_writable_number}
use bart_share.Matcher.{matches, has_equal, values_equal, scalar_eq}
use bart_share.Coverage.{
  CoverageResource, CoverageGap, nearest_gap, nearest_from, consider, better, candidate_of,
  gap_against, gap_key, ranks_before,
}
use bart_share.Coverage.Nearest.{nearest_gap-first}
use bart_share.Context.Providers.{Queries, EvalContext}
use bart_share.Context.{build_context_tuple}
use bart_share.Context.Total.{IsWritableDate, build_context_tuple_total}
use bart_share.Context.Report.{Displays}
use bart_share.Evaluator.{
  EvaluatorError, rejected, evaluator, Fetched, answered, call, rejection, api_error,
  map_evaluator_error, MappedEvaluatorError, stored_policy_text,
}
use bart_share.Prelude.{In, ℕ, [], ◌∷◌, ok, throw, refl, some, none, false, ◌≡◌}

abbrev string : String → BartValue
string s = scalar (BartScalar.text (codes s))

abbrev poster : CoverageResource
poster = record {
  id = codes "r1";
  name = codes "poster";
  attrs = (codes "type", string "poster") ∷ (codes "course", string "ads") ∷ [];
}

abbrev notes : CoverageResource
notes = record { id = codes "r2"; name = codes "notes"; attrs = (codes "year", string "1") ∷ [] }

abbrev asked : BartAttrs
asked = (codes "type", string "poster") ∷ []

abbrev gap : CoverageGap
gap = record { name = codes "poster"; missing = codes "course" ∷ []; conflicting = [] }

-- The poster overlaps with the pattern, so it is nearer than the notes.
gap_run : nearest_gap (notes ∷ poster ∷ []) asked ≡ some gap
unfolding nearest_gap nearest_from consider better candidate_of gap_against gap_key ranks_before
    matches has_equal own values_equal scalar_eq str_eq is_in inherited includes
gap_run = refl

nearest_gap-first_example :
    (r : CoverageResource) × In r (notes ∷ poster ∷ [])
    × (matches r.attrs asked ≡ false)
    × (gap ≡ (candidate_of r asked).gap)
    × ((x : CoverageResource)
        → In x (notes ∷ poster ∷ [])
        → matches x.attrs asked ≡ false
        → ranks_before (candidate_of x asked) (candidate_of r asked) ≡ false)
nearest_gap-first_example = nearest_gap-first (notes ∷ poster ∷ []) asked gap gap_run

abbrev queries : Queries
queries = record {
  connection_rows = λ ids. (codes "ann", codes "zoe" ∷ []) ∷ [];
  group_rows = λ ids. [];
}

abbrev today : EvalContext
today = record { year = 2026; month = 0; day = 31 }

today-IsWritableDate : IsWritableDate today
unfolding is_writable_number number_of number_text show_nat
today-IsWritableDate = record { year = refl; month = refl; day = refl }

build_context_tuple_total_example :
    (text : Str) × (build_context_tuple queries (codes "ann" ∷ codes "ben" ∷ []) today ≡ ok text)
build_context_tuple_total_example =
    build_context_tuple_total queries (codes "ann" ∷ codes "ben" ∷ []) today today-IsWritableDate

abbrev bad_request : Fetched ℕ
bad_request =
    answered 400 (throw []) (api_error (some (codes "syntax")) (some (codes "line 1")) none)

abbrev bad_policy : EvaluatorError
bad_policy = rejected (codes "syntax") (codes "line 1") none

call_run : call (codes "http") bad_request ≡ throw bad_policy
unfolding call rejection
call_run = refl

abbrev mapped : MappedEvaluatorError
mapped = record { status = 500; errors = stored_policy_text (codes "syntax") (codes "line 1") ∷ [] }

mapped_run : map_evaluator_error {O = ℕ} (evaluator bad_policy) ≡ some mapped
unfolding map_evaluator_error
mapped_run = refl

abbrev displays : Displays
displays = record { users_by_id = λ ids. []; groups_by_id = λ ids. [] }
