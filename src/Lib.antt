-- ===== src/Lib.antt =====
-- k8s-service-validator: a program that deploys pods to a Kubernetes cluster, probes every ordered
-- pair of them through the kinds of service, and compares what it observes with what it expects.
--
-- The parts, from the bottom, and the files that model them:
--   pkg/commands: the command lines of agnhost, iperf and netcat. Commands, with one child for each
--     tool (`NewAgnHostClient` is AgnHost.new_client, `ConnectCommand` is connect_command).
--   pkg/entities: pods, containers, namespaces and services as the program sees them, and their
--     Kubernetes specifications. Entities: Container, Pod, Pod.Spec, PodString (node/namespace/name,
--     a pod's name in the tables), Namespace, Service. A method with a pointer receiver returns the
--     changed receiver.
--   pkg/entities/kubernetes: calls of the API server. Kubernetes.Exec (`ExecWithOptions`),
--     Kubernetes.PodWait (`WaitForPodRunningInNamespace`), Kubernetes.Service (labels, deletion) and
--     Kubernetes.Service.Wait (the four `WaitFor` methods).
--   pkg/matrix: the core. TruthTable (truthtable.go), Reachability (reachability.go), Bandwidth
--     (result.go), Connect (the three `ProbeConnectivity` methods of manager.go), Probe (the body
--     of `probeWorker` and the jobs of probe.go), Round (`ProbePodToPodConnectivity` with its
--     goroutines and channels, as a step relation; Round.Sequential is the sequential program that
--     it refines), Validate (`ValidateOrFail` of helper.go), ClientSet (`NewClientSet` of
--     helper.go), Model (model.go, with `RemovePod` in Model.Remove), Manager (pods, nodes and
--     namespaces of manager.go, with the API server in Cluster and the label patches in
--     Manager.Patches), Servers (`WaitForHTTPServers`) and Template (`CreateServiceFromTemplate`).
--     Reachability.PrintSummary has the lines of `PrintSummary`.
--   pkg/tools and pkg/matrix/analyzer.go: Tools, with `RunCmd` in Tools.RunCmd.
--   cmd/report: Report (the lists, the log lines and the report) and Report.Main (`main`).
--   tests/main_test.go: Setup, what `TestMain` does before the first test.
-- How they interact: `ValidateOrFail` runs rounds of probes over the pods of a model; a round makes a
-- job for each pair of pods, workers turn a job into a command in the source pod, and the results are
-- recorded in the reachability of the test case, whose summary decides on a second round and on the
-- number that is returned. The set-up of the suite starts the pods of a model, removes those that
-- hang from the model and the cluster, and calls `WaitForHTTPServers`, which runs such rounds for
-- each port and protocol that the model's containers have.
--
-- State and effects. Pods are places on a heap, which is passed on; a nil pointer, map or slice is
-- `none` or empty. A run-time panic is a value (Outcome). Maps are association lists (GoMap); where
-- Go leaves the order of a map open, the theorems do not depend on it. Text is a list of bytes. Ports
-- and counts are natural numbers, since the program does not compute with negative ones and its
-- counts are far below the bounds of an int. Loops are recursions on the list that they run over; a
-- deletion within a slice is on its backing array. A round of probes needs no fuel: its steps are a
-- relation, and the number of steps is bounded. The tries of `WaitForHTTPServers`, ten at most, are
-- a relation too, since each try goes over a map in an order of its own. One probe is one step of a
-- round: all that it writes is the name that `GetName` gives to a container without one, and a pod
-- that was started has names for all its containers, by `ToK8SSpec` (Round.Unwritten is about rounds
-- between such pods). Two workers that write to one unnamed container at the same time are not
-- modelled.
--
-- Parameters: floating-point numbers (Floats), the SPDY stream of client-go (Remote), the API
-- server (Api, Cluster, and the events of a watch), the files and the configuration of client-go
-- (Environment), the programs that are run (Programs) and the JSON queries, errors.Wrapf of
-- github.com/pkg/errors with its documented treatment of nil (Wrapping), and random numbers. The
-- polls of one wait and the events of one watch come as finite lists, which end at the timeout.
--
-- Not modelled: messages of the logger other than those of `PrintSummary`, waiting as such, and of
-- the end-to-end tests all but the set-up, since their features need a live cluster and are
-- themselves the checks that call these packages. `GetClientSet` and `NewService` of
-- pkg/entities/kubernetes return what they are given.
--
-- Shared: Prelude (names of the library, lists, tests, equality), Outcome, GoMap, Text. Examples
-- applies the theorems at concrete inputs.
pub mod Prelude
pub mod Outcome
pub mod GoMap
pub mod Text
pub mod Kubernetes
pub mod Commands
pub mod Entities
pub mod Matrix
pub mod Report
pub mod Tools
pub mod Setup
pub mod Examples
