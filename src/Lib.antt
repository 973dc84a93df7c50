-- ===== src/Lib.antt =====
-- Verification of the tactical gateway: a model of its core and the theorems on it.
--
-- The gateway takes tactical messages from the network (CoT XML, TAK protobuf) and from files (KMZ,
-- OVL), keeps the raw bytes with a hash chain, turns them into Common Tactical Objects (CTO), publishes
-- these on NATS, and forwards them by its routes. The operational store takes the objects from NATS and
-- writes them to PostGIS, where a new ingest of a KMZ retires an earlier one.
--
--   listener -> frame -> capture (hash chain) -> normalizer -> CTO -> NATS and routes
--   folder watcher -> ingestor -> capture -> parser (recognizer) -> CTO -> NATS -> operational store
--
-- Files and the code they model, with paths from the root of the repository:
--
--   Frame       services/gateway/normalizers/cot_pb.py, encode_frame and try_decode_frame
--   PbSession   services/gateway/listeners.py, CoTPbTcpListener._handle_client
--   XmlStream   services/gateway/listeners.py, _read_one_xml_event
--   Listeners   services/gateway/listeners.py, ListenerStats, the handling of a message by the three
--               listeners, and the sessions of an XML and of a protobuf client
--   Xml         what the code uses of xml.etree.ElementTree: a tree of elements
--   CotXml      services/gateway/normalizers/cot_xml.py: Types (the type of an event), Detail (the
--               subtree as a dictionary, and back), Ingest (cot_xml_to_cto), Egress (cto_to_cot_xml)
--   CotPb       services/gateway/normalizers/cot_pb.py: Ingest (cot_pb_to_cto), Egress (cto_to_cot_pb)
--   HashChain   libs/cto_schema/src/cto_schema/hashchain.py, make_entry, compute_entry_hash,
--               verify_chain
--   Capture     services/gateway/capture.py, CaptureWriter; hashchain.py, to_jsonl and from_jsonl
--   Recognize   services/gateway/kmz_recognize.py (Affiliate, Pipeline) and kmz_prefix_table.py (Table);
--               Recognize.Letters has the letters of a SIDC apart from the table of the code
--   Router      services/gateway/route_engine.py and routes_model.py; Router.Glob is
--               fnmatch.fnmatchcase
--   Watcher     services/gateway/folder_watcher.py, one scan of FolderWatcher
--   Ingest      services/gateway/kmz_ingest.py and ovl_ingest.py, ingest
--   Ovl         services/gateway/ovl: Sidc (sidc.py), Model (model.py and the parser of parser.py),
--               Decode (the geometry of an object, ovl_to_ctos); Ovl.Side has the sides of the letters
--   Kml         services/gateway/kmz_parser.py: Tree (searches without namespaces), Coordinates,
--               Placemark (geometry and extended data), Decode (kmz_to_ctos, with Recognize)
--   Opstore     services/opstore/writer.py (Opstore) and services/opstore/main.py (Opstore.Buffer)
--               with Opstore.Retire and Buffer.Totals for their lemmas;
--               Opstore.Columns has the fields of a CTO and the columns of its row
--   Schema      libs/cto_schema/src/cto_schema/models.py, the enumerations and the check of a
--               Geometry; Schema.Records has the records and the values of attributes;
--               _geometry_to_wkt of services/opstore/writer.py
--   Uuid7       libs/cto_schema/src/cto_schema/uuid7.py
--   Base        shared: lists and texts over the native numbers, bits, dictionaries with text keys
--
-- Each file defines the state and the operations of its part under the names of the source; its child
-- modules prove, and its child Samples runs it on small inputs. A method of a class is a function on the
-- record of the fields it reads and writes; an exception is a value (none, or a constructor of a result
-- type). Bytes and texts are lists of numbers; str.lower is that of ASCII, and the patterns of the
-- recognizer are those of texts of Latin-1.
--
-- Parameters stand for code outside the repository: SHA-256, UTF-8, isoformat and json (HashChain.Hashing,
-- Capture.ManifestFormat, with the laws that the proofs use; Capture.Format is an instance), the sockets
-- (Router.Network), and the calls of MinIO that fail, as a list of faults in Capture.State; floats (Schema.Records.Floats),
-- dates (CotXml.Ingest.Times, CotPb.Millis), the parser and printer of XML, and the generated protobuf
-- bindings. The parser of a CoT event gives a root, a ParseError, or another exception, as for an unknown
-- encoding; dates are written or raise. An exception of a normalizer that is not its own is the
-- constructor raised. Components are
-- also parameters of each other: the message handler of PbSession (Listeners fills it with the model of
-- _handle_message), the capture writer of Listeners and Ingest, the two CoT translators of the routes,
-- and the KMZ and OVL parsers of Ingest (Ovl.Overlay fills it with ovl_to_ctos).
--
-- Bounds and fuel: the decoder takes a varint of at most six bytes, so a payload has fewer than 2 ^ 42
-- bytes. PbSession.drain has fuel, the length of the buffer and one, which is enough since a decoded
-- frame takes three bytes or more; handle_client_delivers states the result with this fuel. The loop of
-- an XML client has the length of its stream and one as fuel, since each event takes a byte or more. encode_frame
-- recurs on the accessibility of the length. All other functions are structural.
--
-- Calls that asyncio may interleave are modelled as one step each: a capture runs under the lock of the
-- writer, the handling of one object by the routes is one step, and a flush of the operational store is
-- two steps (the batch taken out, the write ended), with messages between them, also in flush_all. The cancelling of a flush
-- at the stop of the store is not modelled.
--
-- Not modelled: the older KMZ watcher, the HTTP interface, NATS, settings, logging,
-- migrations, the ORM classes and the tools; the start and stop of the listeners, which are asyncio, and
-- the interleaving of the tasks of UDP datagrams; OVL output, which nothing calls.
pub mod Base
pub mod Frame
pub mod PbSession
pub mod HashChain
pub mod Capture
pub mod Recognize
pub mod Router
pub mod Opstore
pub mod Watcher
pub mod Schema
pub mod Ingest
pub mod Uuid7
pub mod XmlStream
pub mod Xml
pub mod Ovl
pub mod CotPb
pub mod CotXml
pub mod Kml
pub mod Listeners
