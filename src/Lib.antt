-- ===== src/Lib.antt =====
-- Verification library of OMM, a controller for OpenWrt mesh networks, whose daemon is the Go code
-- under internal/ and meshd/. It models the daemon's core: the store, the enrollment of nodes, the
-- choice of a Home, the failover of the backhaul, the topology of the mesh, the profiles and what they
-- author on a router, unattended onboarding, the set-up access point and the status LED, the HTTP
-- interface of the daemon and the client that enrolls at another one.
--
-- The parts of the program and the files that model them:
--   * internal/models/models.go: Models. Records by their Go names in snake case; the JSON strings of
--     EnrollmentStatus are the constructors of Status.
--   * internal/storage/store.go and bolt.go: Store. Store/Bolt is the interface to bbolt (buckets,
--     which keys a Put accepts) and to the JSON of a backhaul state; Store/Db has the buckets, the
--     transactions `update` (rolled back on an error) and `view`; Store/Records, Store/Enrollments,
--     Store/Removal and Store/Settings have one function for each method of the Go interface Store,
--     its body, the transaction, in a function ending in _tx; Store/Ops collects the writing calls
--     in one type with the databases they reach. Store/Memory is a bbolt in memory. The proofs:
--     Store/Invariant and Store/Consistency (the invariant), Store/Strip, Store/Scope,
--     Store/Deletion and Store/Guarantees (DeleteHome), Store/Reads, Store/SettingsReads,
--     Store/Listing.
--   * internal/identity/identity.go (NodeIDFromPublicKeyDER, VerifySignature): Identity, over an
--     interface for SHA-256, x509 and ed25519.
--   * internal/enrollment/enrollment.go: Enrollment, one function for each method of Service. A
--     handler takes the database to its reply and the database after it; the clock, the random bytes
--     and new ids come with each call as an Env. Enrollment/Trust serves sequences of calls.
--   * internal/homeselect/homeselect.go: HomeSelect. internal/selection/selection.go: Selection,
--     which makes the candidates from the store's Homes and calls HomeSelect.
--   * internal/backhaul/switch.go: Backhaul. A round of the loop of Run is one step on what the
--     closures of Deps answer in that round, and a run is a list of rounds.
--     internal/backhaul/uplink.go: Backhaul/Uplink, on the texts that its readers give.
--   * internal/topology/topology.go: Topology and Topology/Collect. internal/topology/aggregator.go:
--     Topology/Merge (mergeGraphs, reconcile) and Topology/Aggregate (Ingest, Merge); a Go map is the
--     list of its entries, and the map keys of pairs are those of the code (Topology/Key).
--     batctl.go: Topology/Batctl; identity.go: Topology/SelfAddrs; backhaul.go and link.go:
--     Topology/Sysfs; leases.go: Topology/Leases; wireless.go: Topology/Wireless, all of
--     internal/topology. A file and the output of a program are texts, regexp and strconv the
--     interface Patterns, and what is used of the package strings is Strings.
--   * internal/api: Api. Api/Response has the status codes and bodies, Api/Host the fields of
--     apiHandler and the interface of the profile manager (Api/Manager makes it of Profiles);
--     Api/Homes, Api/Settings, Api/Enroll, Api/Graphs and Api/Join have one function for each
--     handler, named by its Go name, with _handler where the store has that name; Api/Serve takes a
--     request to its handler, and Api/Routes lists the routes of NewManagementRouter, NewMeshRouter
--     and NewRouter. The proofs: Api/Rooted, Api/Refused, Api/Answers, Api/Routes/Planes.
--   * internal/client/client.go: Client, with the machine of New in Client/Lifecycle. What is at the
--     other end is the interface Controller, which Client/Service fills with the handlers of Api.
--   * internal/uci/client.go: Uci is its interface Client, calls on a configuration that may fail, with
--     what they change and leave. Uci/Rpcd is the interface to rpcd over ubus, Uci/Client the client,
--     one function for each method, and Uci/Client/Interface shows that it is a Uci. Uci/Action,
--     Uci/Members and Uci/Gone have the rules for rows of calls; Uci/Toy is an rpcd in memory.
--   * internal/setupap/setupap.go: SetupAp, internal/batman/batman.go and mac.go: Batman and
--     Batman/Mac, internal/netposture/netposture.go and apply.go: NetPosture. All write through Uci.
--   * internal/profiles/manager.go: Profiles (configuration, defaults), Profiles/Radios (resolution of
--     radios and bands), Profiles/Author (the wireless sections), Profiles/Verify (the inspection after
--     the reload, the fallbacks) and Profiles/Apply (ApplyProfile, ApplyProfileForHome).
--     internal/profiles/meshinspect.go and bataninspect.go: Profiles/Inspect.
--   * internal/discovery/cache.go: Discovery. internal/onboard/wired.go: Onboard, a round of the loop of
--     Run as one step on what its closures return.
--   * internal/deviceled/state.go and led.go: Led and Led/Files, over an interface for the LED class
--     of the kernel under /sys/class/leds: the triggers and the light that the writes make.
-- Prelude passes on the names of the libraries, and has the tests, lists, integers, the order of texts
-- and the stable sort that the parts share.
--
-- How the parts interact: Enrollment calls Store for every record, inside its handlers and in the
-- order of the code; Selection reads the Homes that Store lists; the topology of a node is collected by
-- Topology/Collect, pushed to the controller, and merged there by Topology/Aggregate with the
-- inventory of the store; SetupAp, NetPosture, Batman and Profiles write through Uci, Profiles lays
-- Batman under the mesh and records the outcome in the store, and Onboard chooses among the controllers
-- that Discovery lists. Api serves the store, the enrollments, the profiles and the topology, and
-- Client speaks to the Api of another daemon and records the Home that it joined in its own store.
--
-- Bounds and fuel: Go's int and int64 are integers without a bound, since the code compares times,
-- signals and qualities and subtracts windows of seconds from the clock. All loops run over lists and
-- are structural recursion, but the decimal digits of the LED's brightness, whose fuel is the number.
-- Strings are the native texts; a comparison of two is by bytes, as in Go.
--
-- The polls of Profiles/Verify take as many rounds as their bound says, and no fuel besides.
--
-- waitForApproval takes as many polls as the ticks before its context ends, an argument.
--
-- A section of the configuration is the one of its name. The code also writes to the positional names
-- @system[0] and @device[0], which rpcd resolves to sections that have another name too: they are
-- sections of their own here, so a frame says nothing of the same section under its other name.
--
-- Between the calls of a client other callers of the controller act as Client/Service says: they may
-- adopt, and neither reject an enrollment nor delete one.
--
-- Not modelled: the transport and the JSON of HTTP (the bodies are data, and one that does not decode
-- is none), the dispatch of the chi router, the CORS headers of a development server and the list of
-- the host's interfaces (internal/api/router.go), the ubus program (internal/ubus), the broadcasts and
-- mDNS of internal/discovery, process start and configuration (meshd/cmd/meshd, internal/config), the
-- key files and the issue of certificates of internal/identity. Contexts, locks, waits and log lines
-- are left out: every call holds its lock from start to end, so calls are a sequence. A loop over a Go
-- map is one over the list of its entries. The texts of errors are left out, but the error values that
-- callers test for are not.
mod Prelude
pub mod Models
pub mod HomeSelect
pub mod Selection
pub mod Backhaul
pub mod Led
pub mod Topology
pub mod Uci
pub mod SetupAp
pub mod Api
pub mod Batman
pub mod Profiles
pub mod NetPosture
pub mod Client
pub mod Discovery
pub mod Onboard
pub mod Store
pub mod Strings
pub mod Identity
pub mod Enrollment
