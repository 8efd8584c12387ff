-- ===== src/Lib.antt =====
-- Verification of levelup-bench: the benchmark's records and their validators, the replay of
-- trajectories, the environments with the oracles that compute their optima, the permutations of
-- shuffled histories, and the selection and the claims of the third phase of milestone 6.
--
-- How the program's parts interact. A task (src/levelup/core/task.py) names an environment; an
-- environment (src/levelup/envs/base.py) is reset and stepped by actions; a trajectory
-- (src/levelup/core/trajectory.py) records actions; src/levelup/evaluation.py replays a trajectory in
-- an environment, asks it to verify the task's constraints and reports a result
-- (src/levelup/core/result.py), and checks that a reference (src/levelup/core/reference.py) claims what
-- its trajectory measures. The tracks of src/levelup/envs/ are environments, with two oracles each:
-- `optimal_path`, and `frontier_path`, which searches under a biased cost. What the oracles return
-- becomes bundles, with a ladder (src/levelup/core/experiment.py), and held-out tasks. The experiments of
-- src/levelup/experiments/ record the outcome of each trained model on each such task; the third phase
-- of milestone 6 selects a candidate for each condition from these records and tests its claims on the
-- metrics of those selected. One condition trains on histories that src/levelup/learning/ has permuted.
--
-- Files:
--   Prelude              library names, Boolean tests, lists, arrays, orders, results, texts, whole numbers,
--                        fractions, ranges
--   Core                 src/levelup/core/: Task, Trajectory, Outcome (result.py), Reference, and Ladder
--                        (experiment.py); Json and Numbers are the values in them, Faults the exceptions
--   Core/Outcome/Validity, Core/Ladder/Order, Core/Ladder/Exposure, Core/Trajectory/Indices,
--   Core/Reference/Tiers
--                        what the validators and predicates mean
--   Environment          src/levelup/envs/base.py, as a record of operations
--   Evaluation           src/levelup/evaluation.py; Traces (what a replay has done), Stops (where and
--                        why one stops), Accepts (what an evaluation takes to return)
--   Runtime              the hash of a JSON payload and Python's `repr`, as parameters
--   Search               the loop of `_search_path`, for any states: Heap (heappop), Best (the dict
--                        `best`), Walks, Rounds (one round by cases), Invariant, Sound, Optimal,
--                        Sentinel (the costs stay below 10 ** 18) and Fuel (the loop ends)
--   Track                what the track modules share: OpaqueAction, State, verify_constraint
--   Course               the methods that the three tracks write out alike, over a record of what
--                        differs; Runs (what a step has done), Valid (the constructor's checks), Oracle
--                        (the oracles), Oracle/Edges, Oracle/Replay (walks are runs), Oracle/Optimum,
--                        and References (evaluated trajectories)
--   AdaptiveTrack, ComboTrack, MechanicTrack
--                        src/levelup/envs/adaptive_track.py, challenge_track.py and mechanictrack.py: the
--                        transition function, the constructor, and the track as a course
--   Sampling             `_random_aliases`, and `random.Random` as a parameter; the Generation modules
--                        of the tracks are make_adaptive_track, make_mechanic_track and make_combo_track
--   Bundles              the bundles and held-out tasks of the three track modules, over a way to make a
--                        track; Gaps (what the loops collect), Ends (when a loop ends) and Families (the
--                        loops of each module)
--   MacroTrack           src/levelup/envs/macrotrack.py; Steps and Bounds (what a run needs), Oracle (the
--                        dynamic programme), with Routes, Tables, Optimum and Costs, and Bundle (the
--                        stages), with Stages
--   Microgames           src/levelup/envs/microgames.py; Detour, Switchboard and Calibration, each with
--                        the proofs below it
--   Evaluation/Invariants
--                        what every replay in an environment keeps
--   Learning             src/levelup/learning/state_conditioned.py, the shuffled histories: Derangements,
--                        and History with Chosen (the derangement), Accepted and Traces
--   Phase3               src/levelup/experiments/milestone6_phase3_selection.py: Outcomes (one record; also
--                        the validator of experiments/runner/records.py), Metrics (of a family), Selection
--                        (of a condition), with Tolerance, Best and Medians, Claims, with Lookups and Gates,
--                        and Grouping (of the matrix, for each condition), with Owners and Filed
--   Tests                concrete tracks and records, on which the theorems are applied
--
-- State. What `reset` and `step` assign on `self` is the record Session, and every method takes one and
-- returns the next. An exception is the `raise` of a Result, with one constructor for each message;
-- evaluation ends at the first, so that the session before it is not looked at again.
--
-- Numbers. The whole numbers of tracks are natural, as the program builds them; a finite float is a
-- whole multiple of 2 ** -1074, and ticks become floats exactly below 2 ** 53; from there on the model
-- stays exact where Python rounds. The seeds of environments and trajectories are natural numbers too.
--
-- Fuel. The search's `while` is recursion on fuel. A recorded cost below 10 ** 18 falls each time that
-- an entry is pushed, and each entry is popped once, so 2 * (states * 10 ** 18) + 2 rounds are enough
-- (Search/Fuel), which is what `enough_fuel` gives for the finitely many states of a track. The loops of
-- bundles and held-out tasks run on a number of rounds; their `while` ends only if enough tracks have a
-- gap, and then the rounds up to the last of these, and one more, are enough (Bundles/Ends).
--
-- Parameters. SHA-256 of a JSON text and `repr` (Runtime), `random.Random` (Sampling), and Python's `int`
-- on a JSON value (Microgames) are code of Python, which the definitions take as arguments.
--
-- Not modelled: the neural models of src/levelup/learning and their training, which are calls of torch;
-- parse_observation and the probing of tasks in src/levelup/learning/interaction.py; the sort and the
-- JSON text of the permutation map; what select_phase3_tuples validates of its inputs; the reducers,
-- drivers, stores and authorities of src/levelup/experiments, which mostly read and write files, and the
-- milestones before the sixth; and the checks that pydantic makes of single fields. The text of an
-- exception is not modelled beyond which one it is.
pub mod Prelude
pub mod Search
pub mod Core
pub mod Environment
pub mod Evaluation
pub mod Runtime
pub mod Track
pub mod Course
pub mod AdaptiveTrack
pub mod ComboTrack
pub mod MechanicTrack
pub mod Bundles
pub mod Learning
pub mod MacroTrack
pub mod Microgames
pub mod Phase3
pub mod Tests
pub mod Sampling
