-- ===== src/Examples/Renderer.antt =====
-- A report of one area, and the adapter that shows the worker's tools.
use qaestro.Prelude.{none, some, [], ◌∷◌, pos, Ensures}
use qaestro.Contracts.{QaReport, StrategyResult}
use qaestro.Renderer.{render}
use qaestro.Renderer.Marker.{HoldsMarker, render-HoldsMarker}
use qaestro.Examples.Analyzer.{feedback, impact}

abbrev planned : StrategyResult
planned = record {
  actions = [];
  reasoning = "Two areas";
  confidence = record { numerator = pos 1; exponent = 1 };
  knowledge_refs = "cache" ∷ [];
}

abbrev report : QaReport
report = record {
  event_id = "e1";
  repo_full_name = "o/r";
  pr_number = some (pos 7);
  impact = impact;
  strategy = planned;
  validations = [];
  summary_markdown = "Summary";
  ci_feedback = some feedback;
}

render-HoldsMarker_example :
    Ensures HoldsMarker (render (λ f. "0.50") report "c1" none (some feedback))
render-HoldsMarker_example = render-HoldsMarker (λ f. "0.50") report "c1" none (some feedback)
