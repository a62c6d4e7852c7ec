-- ===== src/Examples/Validation.antt =====
-- The checks of internal/graph/validate.go on the sample graph.
use oh_my_graph.Base.{true, ◌≡◌, refl, ◌↔◌, ◌⊎◌, [], ◌++◌, All}
use oh_my_graph.Graph.{RawGraph, from_raw}
use oh_my_graph.Names.{node_id_matches}
use oh_my_graph.Names.Segments.{IsInside, segments, node_id_matches-IsInside}
use oh_my_graph.Issue.{each}
use oh_my_graph.Sessions.{validate_handoff_constraints}
use oh_my_graph.Sessions.Laws.{HasSoundSessions, validate_handoff_constraints-nil}
use oh_my_graph.Feedback.{validate_feedback, validate_feedback_placeholders}
use oh_my_graph.Feedback.Shape.{HasSoundFeedback, validate_feedback-nil}
use oh_my_graph.Bare.{bare}
use oh_my_graph.Validate.{Std, issues_of, validate, parse, accepted}
use oh_my_graph.Validate.Stored.{IsListed, IsIndexed-IsListed}
use oh_my_graph.Validate.Unmoved.{early, middle, late, success_issues, timeout_issues, issues_of-eq}
use oh_my_graph.Validate.Decides.{IsAccepted, IsRefused, parse_decides}
use oh_my_graph.Feedback.Quoted.{AreAnswered, validate_feedback_placeholders_iff}
use oh_my_graph.Validate.Planner.{IsJudgedReply, parse_planner_reply_decides}
use oh_my_graph.Examples.Samples.{
  sample_std, sample_raw, sample_graph, sample_indexed, sample_clear, sample_runnable,
}

parse_decides_example : IsAccepted sample_std sample_raw ⊎ IsRefused sample_std sample_raw
parse_decides_example = parse_decides sample_std sample_raw

sample_graph-IsListed : IsListed sample_graph
sample_graph-IsListed = IsIndexed-IsListed sample_graph sample_indexed sample_runnable.distinct

issues_of-eq_example :
    (bare (issues_of sample_std sample_graph).0 ≡ bare sample_graph)
    × ((issues_of sample_std sample_graph).1
        ≡ early sample_graph
          ++ (each (success_issues sample_std) sample_graph.nodes
              ++ (middle sample_graph
                  ++ (each (timeout_issues sample_std) sample_graph.nodes ++ late sample_graph))))
issues_of-eq_example = issues_of-eq sample_std sample_graph sample_graph-IsListed

accepted_clear :
    (std : Std) (raw : RawGraph)
    → (issues_of std (from_raw raw)).1 ≡ []
    → parse std raw ≡ accepted (issues_of std (from_raw raw)).0
unfolding parse validate
accepted_clear std raw clear = rw (clear, parse) refl

sample_accepted : parse sample_std sample_raw ≡ accepted (issues_of sample_std sample_graph).0
sample_accepted = accepted_clear sample_std sample_raw sample_clear

parse_planner_reply_decides_example : IsJudgedReply sample_std sample_raw
parse_planner_reply_decides_example = parse_planner_reply_decides sample_std sample_raw

id_accepted : node_id_matches "build/part-1" ≡ true
unfolding node_id_matches
id_accepted = refl

node_id_matches-IsInside_example : All IsInside (segments "build/part-1")
node_id_matches-IsInside_example = node_id_matches-IsInside "build/part-1" id_accepted

validate_handoff_constraints-nil_example :
    (validate_handoff_constraints sample_graph ≡ []) ↔ HasSoundSessions sample_graph
validate_handoff_constraints-nil_example = validate_handoff_constraints-nil sample_graph

validate_feedback-nil_example :
    (validate_feedback sample_graph ≡ []) ↔ HasSoundFeedback sample_graph sample_indexed
validate_feedback-nil_example = validate_feedback-nil sample_graph sample_indexed

validate_feedback_placeholders_iff_example :
    (validate_feedback_placeholders sample_graph ≡ []) ↔ AreAnswered sample_graph
validate_feedback_placeholders_iff_example = validate_feedback_placeholders_iff sample_graph
