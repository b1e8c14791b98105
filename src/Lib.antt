-- ===== src/Lib.antt =====
-- Topology Maps: the configuration collector (server/config_collector) and the relationships that
-- nr_ingest creates in New Relic, with the API client's token bucket, the Meraki transformer and
-- the simulator's topology state, as functions over an explicit state, with the theorems that make
-- them correct.
--
-- The collector pulls the configuration of a Cisco Meraki organisation. endpoints_catalog.py
-- expands the catalog of endpoints into jobs, one for each entity and area; targeted_puller.py
-- drops the jobs whose key was seen, fetches the others, and stores each answer; redactor.py first
-- replaces the secrets of the answer by sentinels, deletes what differs from site to site, and
-- prints the rest as canonical JSON, whose SHA-256 digest (hashing.py) is its address; store.py
-- files the text under the digest and writes an observation of the entity unless the latest one
-- has the same digest. scanner.py runs this over a whole organisation: a baseline in chunks of
-- twenty jobs, and an anti-drift sweep that writes an observation for every answer.
--
-- Text is Python's str as the list of its code points. Json is what json.loads gives, an object
-- being its entries in insertion order; Json/Printer is json.dumps with sort_keys, Json/Order the
-- equality of documents up to the order of keys. Hashing is canonical_json.py and hashing.py.
-- Redactor is redactor.py: Redactor/Path its parse_path, Redactor/Catalog the tables of
-- redaction_catalog.py; Redactor/Position describes concrete positions of a document, and
-- Redactor/Mask, Redactor/Delete and Redactor/Redact say what the walkers and redact do there;
-- Redactor/Raising is the same with the encoder's exception, which Redactor/Encoding rules out.
-- Catalog is endpoints_catalog.py, with the three _endpoints files under Catalog/Endpoints and the
-- change-log map in Catalog/Events; Catalog/Expand and Catalog/Tables hold its theorems. Store is
-- the part of store.py about blobs and observations, Store/Sweeps that about sweep runs,
-- Store/State the tables, the monad of actions that may raise, and the environment;
-- Store/Integrity and Store/Latest hold the invariants. Puller is targeted_puller.py, with
-- Puller/Coalesce and Puller/Pull. Scanner is scanner.py, with the enumeration in
-- Scanner/Inventory; Scanner/Runs, Scanner/Outcome and Scanner/Ending follow the row of a run on
-- every path, Scanner/Chunks, Scanner/Baseline and Scanner/Complete the tables through a baseline,
-- Scanner/Drift, Scanner/DriftLoop and Scanner/DriftSweep through an anti-drift sweep.
--
-- Diff is diff_engine.py: Diff/Rows its tables of rows and compute_diff, Diff/Same and Diff/Agree
-- what an empty diff of objects means. It visits the sorted union of the keys by making the
-- entries of each key and sorting them; == on documents is equality of the printed forms with
-- booleans as numbers.
--
-- Refresh is manual_refresh.py: Refresh/Jobs says which jobs a refresh has, Refresh/Entity that it
-- pulls them. The requests in flight are an argument there; Refresh/Registry is the registry of
-- tasks, of which Refresh/Exclusive says what any interleaving keeps.
--
-- Poller is change_log_poller.py without its endless loop, over the rows of Store/Changes;
-- Poller/Again says which events it takes for new. What the API answers to it is an argument.
--
-- Client is the paginated fetch of server/meraki_client.py, whose limit of pages is its fuel,
-- Client/Getters the getters that the topology is made from, and Client/Limiter the token bucket
-- of server/rate_limiter.py over whole ticks and parts of a token. Store/History is the two
-- queries of store.py that list rows with a limit, over any order of the rows of one time;
-- Store/History/Where says which rows they ask for.
--
-- Dict is Python's dict and set over text keys. Ingest is nr_ingest/create_relationships.py:
-- Ingest/Graph the nodes, links and entities, Ingest/Spanning the breadth-first search of
-- build_spanning_tree, Ingest/Generate the relationships and Ingest/Send the deletions, the
-- batches and main. Ingest/Links and Ingest/Networks say what its adjacency and its networks hold,
-- Ingest/Search what the rounds of the search keep and Ingest/Search/Loop that it ends,
-- Ingest/Tree what the tree is; Ingest/Wiring is about the relationships between devices,
-- Ingest/Rebuild and Ingest/Ports about what main sends. NerdGraph is an argument that answers
-- each mutation.
--
-- Sockets is the registries of web sockets, Sockets/Hub that of server/routes/config.py and
-- Sockets/Manager that of server/websocket.py, with what other tasks do during each send as an
-- argument. The loop of the latter reads a list that others may extend, so that it has fuel; one
-- more than the connections is enough where no task connects.
--
-- Simulator is simulator/topology_state.py: Simulator/Tables the rows of its tables and the loop
-- that moves them, Simulator/Counts what every sequence of calls keeps, Simulator/Moves what
-- becomes of a moved connection.
--
-- Transformer is server/meraki_transformer.py, over records of what the dashboard answers:
-- Transformer/Links its links, Transformer/Layer2 and Transformer/Layer3 the two topologies,
-- Transformer/Sites the sites of the map; Transformer/Mesh says which routes there are,
-- Transformer/Health what a site sums up. A share of unhealthy devices is a fraction.
--
-- What the program does not implement is an argument: SHA-256 is a function from bytes to a
-- digest, about which nothing is assumed; the Meraki API answers each request, by its number and
-- URL, with a document or an exception; the clock is a function of the number of the reading, and
-- theorems that need it assume that it rises strictly. SQLite is modelled by lists of rows with
-- the constraints that the schema declares. Of two observations with one time the query takes the
-- one that the index lists first.
--
-- parse_path runs on fuel, one more than the length of the path, and each round consumes at least
-- one character. The digits of a number n take n + 1 rounds at most, since n shrinks tenfold in
-- each. The search of a network runs on twice the number of edges and the number of its firewalls,
-- and a device is queued once, as a firewall or an end of an edge. The batches of relationships
-- and the chunks of a baseline are cut on as much fuel as there are jobs, and each takes at least
-- one. All other loops are recursions on a list.
--
-- Not modelled: floats in JSON, texts with lone surrogates outside Redactor/Raising, where the
-- UTF-8 encoder refuses them (elsewhere they are encoded as though it did not, so that what is
-- said of documents that hold them is said of the model alone), templates with doubled braces (the
-- catalog has none), the iteration order of Python sets, failures of SQLite other than the foreign
-- key on the digest of an observation and the constraints on change events, and logging. A
-- progress notice carries the id, the kind and the counts; what the receiver does with it is a
-- parameter, which may raise. The front ends, the SNMP agents and the generators of the simulator,
-- the collector of the simulated network, the configuration ingest of New Relic, and the HTTP
-- routes but for the web socket hub are not modelled.
pub mod Prelude
pub mod Text
pub mod Json
pub mod Hashing
pub mod Redactor
pub mod Catalog
pub mod Store
pub mod Puller
pub mod Scanner
pub mod Diff
pub mod Refresh
pub mod Poller
pub mod Client
pub mod Dict
pub mod Ingest
pub mod Simulator
pub mod Sockets
pub mod Transformer
