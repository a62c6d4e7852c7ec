-- ===== src/Lib.antt =====
-- oh-my-graph: the graph of work that a run executes, its validation, the scheduler's decisions
-- about the nodes of a run, the hand-off of results between them, and the book of what a run cost.
--
-- A graph file lists nodes with their dependencies. internal/graph decodes and validates it;
-- internal/schedule runs the nodes, each in a subprocess, judges their outcomes, retries them, and
-- sends work back along feedback arcs. The scheduler relies on what validation guarantees: ids
-- that differ, dependencies that exist and form no cycle, arcs with disjoint bodies.
-- internal/handoff interpolates the prompts of the nodes and keeps their results in the run
-- directory, where the nodes below, a later round and a later process find them. internal/ledger
-- records each execution of a node and prints the table of the run at its end.
--
-- Which file models what:
--   Graph        internal/graph/graph.go: Node, Graph and the records in them, the by-id index, the
--                defaults of decoding (from_raw is fromRaw with normalizeNodes), ReadyGiven, Roots,
--                DependentsOf. Graph/Index, Graph/Ready and Graph/Paths hold the laws.
--   Acyclic      internal/graph/validate.go: the three-colour search of validateAcyclic and visit.
--   Ancestors    internal/graph/feedback.go: ancestorSet and betweenSet.
--   Names        internal/graph/validate.go: the patterns of node ids and worktree names.
--   Tokens       internal/graph/feedback.go: feedbackTokenPattern, as a reader of code points.
--   Issue        internal/graph/validate.go: the errors that Issues returns. A message is a
--                constructor with the values that it prints.
--   Feedback     internal/graph/feedback.go: FeedbackBody, the checks of arcs and of placeholders.
--   Reach        internal/graph/feedback_reach.go: LintFeedbackReach and the target that it suggests.
--   Checks       internal/graph/validate.go: the checks of one node or one edge at a time.
--   Sessions     internal/graph/validate.go: validateHandoffConstraints.
--   Validate     internal/graph/validate.go: the passes that store a duration, Issues and Validate;
--                internal/graph/graph.go: Parse and ParsePlannerReply behind the decoder.
--   Bare         a graph without the stored durations, which no later check reads.
--   Schedule     internal/schedule. Policy: width, permission mode, tools, provenance. Verdict:
--                success check, verification, budget and the causes of failures. Attempts: the
--                retry loop of runNode. Arcs: feedbackState and judgeFeedback. Costs: the
--                correction of the cost of a resumed session. Execute: the goroutines of execute,
--                the loop that launches and the group that cancels, as steps on a run state, in any
--                interleaving; what runNode returns is an argument.
--                Prompts: buildInvocation and what the runner is given in each attempt.
--   Fence        internal/fence/fence.go: the cuts of a quoted text.
--   Placeholders internal/handoff/handoff.go: placeholderPattern and its substitution;
--                internal/handoff/placeholder_lint.go: looseTokenPattern.
--   Handoff      internal/handoff/handoff.go: the state and its operations; Files holds those that
--                read or write the run directory. Paths, Writes, InStep, Steps, Restart, Once and
--                Interpolation hold the laws.
--   FailedReply  internal/handoff/handoff.go: excerptFailedReply and unrunnableFrontBlock.
--   Lint         internal/handoff/placeholder_lint.go: placeholderFindings and judgeToken.
--   Ledger       internal/ledger/ledger.go: the book, what is entered in it and its totals. Table: the
--                cells and widths; Render: the printed text; Rows and Aligned hold their laws.
--   Disk         what the hand-off asks of the package os, with what it promises; Disk/Memory keeps it.
--   Base, Examples: shared lemmas; sample graphs on which the theorems are applied.
--
-- How state is modelled. A Go map is an association list whose insertion replaces, or a function
-- where it is only read and assigned; the order in which one is ranged over is an argument. A
-- *Verification is shared by a node of the list and its copy in the index; validate_success_checks
-- writes both. A pass that changes the graph returns it. internal/graph reads code points;
-- internal/handoff and internal/fence are modelled on the bytes of Go's strings, with the UTF-8
-- decoding of the packages utf8 and strings (Base/Bytes). A run directory is taken in clean form,
-- so that filepath.Join puts a '/' between its elements. The operations of a Handoff hold its
-- mutex, so each is one function of the state and the disk; a call that fails returns its error
-- with the state and the disk that it leaves.
--
-- Fuel. visit recurses on one more step than there are nodes, since each step paints a white node
-- grey; walk on two more, since each step marks a parent and only a declared node has parents.
-- Both are proved to be enough on an indexed graph. The retry loop recurses on the attempts left,
-- whose number is computed as an `int`, overflow included. The rounding of a float64 drops one
-- binary digit a step, and its 2100 steps are more than a finite value has digits.
--
-- Parameters. time.ParseDuration, and whether a pattern compiles (Std) and matches (Matcher), are
-- arguments of the definitions that use them; nothing is assumed of them. The file system is a
-- record of operations, and IsLawful says what they are documented to do: a write that succeeds
-- can be read, no call changes another file, a rename that fails changes nothing, and a temporary
-- file is new. The nonces of crypto/rand, the text of a duration and the worktrees are arguments
-- too. What an attempt meets outside the scheduler (the subprocess, the verification command, the
-- disk) is the record Execution, one for each attempt. Floats is what the ledger prints of a
-- float64.
--
-- Not modelled. YAML decoding and the splicing of fragments work on the trees of a third-party
-- package. The costs of the ledger are float64, in units of 2^-1074 of a dollar and with rounded sums
-- (Base/Float), without infinities; in Schedule, costs and budgets are whole millionths of a dollar,
-- where they are compared and subtracted. 64-bit counts are their bits. Events and snapshots, the error that execute returns at
-- its end, the sanitising of terminal text and the other packages are not modelled. An error's own
-- text is left out where a constructor carries its values.
pub mod Base
pub mod Graph
pub mod Acyclic
pub mod Ancestors
pub mod Lint
pub mod Ledger
pub mod Reach
pub mod Names
pub mod Handoff
pub mod Issue
pub mod Tokens
pub mod Feedback
pub mod FailedReply
pub mod Fence
pub mod Checks
pub mod Sessions
pub mod Bare
pub mod Validate
pub mod Placeholders
pub mod Schedule
pub mod Disk
pub mod Examples
