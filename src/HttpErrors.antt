-- ===== src/HttpErrors.antt =====
-- internal/pkg/http/httperrors and internal/pkg/grpc/grpcErrors: errors with a status, and what a
-- client is told of them over HTTP and gRPC.
pub mod Chain
pub mod CustomErrors
pub mod ProblemDetails
pub mod GrpcErrors
pub mod Classes
pub mod Resolving
mod Tests
