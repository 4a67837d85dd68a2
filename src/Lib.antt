-- ===== src/Lib.antt =====
-- Verification of the e-commerce microservices: the event-sourcing packages, their event store on
-- EventStoreDB, the SQL specifications, the order service that stands on them, the messages over
-- RabbitMQ with their store, the products of the catalog, and the errors that clients are told of.
--
-- How the parts interact. An aggregate (internal/pkg/es/models/event_sourced_aggregate.go) takes events
-- one by one through `Apply`, which stamps them, keeps them as pending and lets the aggregate's own
-- `When` change its fields. The aggregate store (internal/pkg/eventstroredb/aggregate_store.go) appends
-- the pending events to the aggregate's stream, and loads an aggregate by replaying its stream; both go
-- through the event store (event_store.go) and the serializer (esdb_serilizer.go) to the client. The
-- worker (subscription_all_worker.go) follows all streams, hands each event to the projections
-- (internal/pkg/es/projection_publisher.go) and stores its position as a checkpoint. The order service
-- (internal/services/orderservice/internal/orders) makes orders as such aggregates and projects them
-- into read models. Messages are published by the producer and handled by the workers of a consumer
-- (internal/pkg/rabbitmq), which retry their handlers and settle each delivery; a stored message
-- (internal/pkg/postgresmessaging) waits in a table until it is processed. Errors of all of these become
-- custom errors (internal/pkg/http/httperrors), which two parsers turn into answers over HTTP and gRPC.
--
-- Which file models what:
--   Common              the modules' shared names: Go results (Effects), 64-bit words (Word64), texts,
--                       lists and Boolean tests
--   Specification       internal/pkg/core/data/specification/specification.go
--   EventSourcing/Event, Version, Error
--                       internal/pkg/core/domain, internal/pkg/core/events, internal/pkg/es/models,
--                       internal/pkg/es/errors and internal/pkg/eventstroredb/errors
--   EventSourcing/Aggregate
--                       internal/pkg/es/models/event_sourced_aggregate.go: `apply`, `fold`,
--                       `load_from_history`, `add_domain_events` and the others under their own names
--   Eventstoredb/Client the client of EventStoreDB, a parameter, with what its documentation says of
--                       reading forwards and of appending with an expected revision
--   Eventstoredb/StreamName, Serializer, EventStore, AggregateStore, Checkpoint, Subscription
--                       the files of internal/pkg/eventstroredb of those names, the stream names, the
--                       checkpoints in memory and the publisher of projections
--   Orders/Items, Order, Creating, Projection
--                       shop items and their mappings, aggregate/order.go with its events, the handler
--                       of the command that creates an order, and projections/mongo_order_projection.go
--   Pagination          internal/pkg/utils/pagination.go
--   Messaging           internal/pkg/core/metadata and internal/pkg/core/messaging/messageheader
--   HttpErrors/Chain, CustomErrors, ProblemDetails, GrpcErrors
--                       internal/pkg/http/httperrors/customerrors (a file's functions under their own
--                       names), http/httperrors/problemdetails and grpc/grpcErrors
--   Rabbitmq/Consumer, Starting, Workers, Producer, Bus, Connection
--                       rabbitmq_consumer.go (`handle_received` and what it calls; what `Start`
--                       declares; its goroutines with `Stop`), rabbitmq_producer.go,
--                       rabbitmq-bus.go and types/connection.go; Account is the specification of the consumer
--   GenericRepository, Mongodb/Repository, Postgresgorm/Repository
--                       internal/pkg/core/data, internal/pkg/mongodb/repository and
--                       internal/pkg/postgresgorm/repository: the generic repositories over the drivers
--   Mongodb             internal/pkg/mongodb/helpers.go and the result of a list; Stored says what a
--                       repository promises, as operations on a table
--   Postgresgorm        internal/pkg/postgresgorm/gormdbcontext and its pipeline of transactions
--                       (Transacting); Queries has scopes/scopes.go and the pages of helpers/gormextensions
--   TypeMapper          internal/pkg/reflection/typemapper/type_mapper.go; Serializers has the
--                       serializers of messages and events, internal/pkg/core/serializer/json
--   Orders/Reading      data/repositories/mongo_order_read_repository.go and the handlers of queries
--   Catalogs            internal/services/catalogwriteservice/internal/products: the handlers of its
--                       features, and data/repositories/pg_product_repository.go (Repository)
--   CatalogReads        internal/services/catalogreadservice/internal/products: the handlers of its
--                       features, data/repositories/redis_product_repository.go, the repository on
--                       MongoDB (Products) and the consumers of integration events (Consumers)
--   Endpoints           the `handler`s of the endpoints in the features of the services, and
--                       shared/grpc of catalogwriteservice and orderservice
--   Persistence         internal/pkg/core/messaging/persistmessage and
--                       internal/pkg/postgresmessaging/messagepersistence
-- The modules below these hold the proofs, named for what they prove; the modules called Tests hold runs
-- and instances, on an event store in memory.
--
-- Choices. A Go call gives a value, an error or a panic (`Outcome`), and a call with effects also the
-- state that it leaves behind (`Action`). An error is a cause under layers of wrappers; message texts are
-- left out. int64 and uint64 are numbers below 2 ^ 64 in two's complement. A uuid is a number, a time its
-- nanoseconds since Go's zero time, a Go string the list of its code points, and float64 a parameter.
-- Two loops are on fuel, and the answer `none` says that they still run. For `get_stream_events` one round
-- is enough for a stream of fewer than 500 events, and no fuel is enough beyond 500; for
-- `resolve_problem_detail` two rounds are enough where the loop ends. The worker's loops
-- are over the events that a subscription gave and the attempts that were made. What uuids and clocks
-- give is passed as an argument.
--
-- Not modelled: logging, tracing and metrics; JSON, and the reflection that finds fields and methods (the
-- types of a program and their names are a list); the drivers of databases, brokers and servers;
-- configuration and start of the applications; and the rules by which a library
-- validates commands.
pub mod Common
pub mod Specification
pub mod EventSourcing
pub mod Eventstoredb
pub mod Orders
pub mod Pagination
pub mod Messaging
pub mod HttpErrors
pub mod Rabbitmq
pub mod Persistence
pub mod Postgresgorm
pub mod Catalogs
pub mod CatalogReads
pub mod Mongodb
pub mod GenericRepository
pub mod TypeMapper
pub mod Endpoints
