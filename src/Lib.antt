-- ===== src/Lib.antt =====
-- X-ClusterLink connects VPCs of several Kubernetes clusters through tunnels between their gateway
-- pods. It is a Kubernetes operator: reconcilers and an informer that read and write objects of a
-- cluster, and run shell commands in the gateways' pods.
--
-- The parts, all but the last two under internal/, and the modules that model them:
-- * controller/vpcnattunnel_controller.go, the reconciler of VpcNatTunnel, in NatTunnel. Its lookups
--   are in NatTunnel/Gateway, execCommandInPod in NatTunnel/Exec, the commands for routes in
--   NatTunnel/Routes, the two branches of handleCreateOrUpdate in NatTunnel/Setup (`initialise` and
--   `update`), and Reconcile, handleCreateOrUpdate and handleDelete in NatTunnel/Handlers. The other
--   modules below it are proofs.
-- * controller/gateway_informer.go, which follows the StatefulSets of the gateways, in Informer:
--   AddFunc, UpdateFunc and DeleteFunc are `on_add`, `on_update` and `on_delete` of
--   Informer/Handlers, their loops are in Informer/Lookup and Informer/Switch. The informer changes
--   the specs of tunnels, which the reconciler of VpcNatTunnel then follows (System/Following), and
--   lists them by the labels that the reconciler writes (System/Selection). Its Start is in
--   Informer/Start, a state of its goroutine with what it shares, and moves of it and of its
--   surroundings.
-- * controller/gatewayexip_controller.go, which exchanges the objects GatewayExIp with the other
--   clusters, in Syncer: the four functions that the broker's syncer calls. The last of them gives a
--   remote gateway's new address to the tunnels. Its InitEnvVars is in Startup/Environment, its
--   NewGwExIpSyner and Start are in Startup/Agent.
-- * controller/vpcdnsforward_controller.go, the reconciler of VpcDnsForward, in Dns: the Corefile in
--   Dns/Corefile, the route to the cluster's DNS in Dns/Route, the handlers in Dns/Handlers.
-- * tunnel/, the factory and the two kinds of tunnel, in Tunnel. NatTunnel/Scripts describes its
--   commands, and those for the routes, by the rules and the device that they add or remove.
-- * cmd/main.go, which reads the configuration and hands the parts to the manager, in Startup/Main.
-- * The objects of api/v1 are in Objects/Own, with the metadata that the code reads. Objects/Foreign
--   has the fields that the code reads of objects of Kubernetes, Kube-OVN and Submariner.
--
-- The cluster is a parameter: a record `Kube` (Kube/Calls) with one operation for each call of the
-- client, of the exec endpoint and of the helpers for errors and finalizers. Its state is unknown, and
-- each operation may answer or refuse, so that a theorem about all clusters is one about other
-- writers and about failures at any call too. A handler is an action of the monad `M` (Kube/Monad):
-- it ends with a value, a Go error or a panic, and it keeps a log of the requests that change
-- something, each as accepted (`did`) or refused (`failed`), newest first. The log is only there for
-- the statements: no handler reads it. Kube/Post has the rules of proof for what holds where an
-- action ends, Kube/Steps equations for single steps, Kube/Answers rules for calls that always
-- answer, and `changes` of Kube/Log drops the commands and the refused requests from a log.
--
-- System puts the parts together: a `Step` (System/Reach) is one handler that runs to its end, for
-- any event, or a change of the cluster by someone else, and `Reach` are the runs from a start.
-- Handlers run one after the other there: that they are interleaved in the program is covered only
-- as far as the cluster may answer anything at any call. System/Rules says after which requests a
-- request is allowed, the other modules show it handler by handler, with the rules of System/Keeps.
-- System/Unclaimed follows the finalizer through the cluster's answers. System/Bounds counts
-- requests, with the rules of Kube/Costs. System/Selection has the documented meaning of a label
-- selector, that each of its pairs is among the labels. System/Peers is about a tunnel whose owner
-- names another peer.
--
-- Startup has its own monad `Boot`: a step goes on, exits or panics, over a `Machine` that has the
-- libraries' unknown state, the environment of the process, and a log of what the manager was given.
-- The libraries are a record `Libraries` (Startup/Outside): the manager, the clients, the registration of
-- types, envconfig, the broker's syncer and its names of variables. os.Setenv is `set` of
-- Startup/Actions. Startup/Wired has the specification, Startup/Steps and Startup/Wiring the proofs.
--
-- A pointer to an object is a value here, which a write replaces by the server's answer where the code
-- goes on to use it. A Go map is an association list or nil, and a write to nil is a panic, as is
-- an index out of range. Strings are lists of code points, and Base/Text has the functions of Go's
-- `strings` that are called. `StaticRoutes` of a Kube-OVN Vpc (v1.12.11 in go.mod) is a slice of
-- pointers, so that the loops of the informer that assign to an element change the object.
-- A Go error that an informer's function logs before it returns is the error of the action.
-- Every loop is structural recursion; there is no fuel.
--
-- Not modelled: log lines and the logger, contexts and the two sleeps; the parsing of the command line,
-- whose values are an argument; SetupWithManager, which only calls libraries, and
-- what the manager does once it is started; generated code.
pub mod Base
pub mod Objects
pub mod Kube
pub mod Tunnel
pub mod NatTunnel
pub mod Informer
pub mod Syncer
pub mod Dns
pub mod System
pub mod Startup
pub mod Tests
