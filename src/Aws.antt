-- ===== src/Aws.antt =====
-- The AWS services that the program calls: the requests and errors it builds and reads, the clients
-- as parameters of the model, and what the program relies on of DynamoDB.
pub mod Types
pub mod Client
pub mod Dynamo
pub mod Services
pub mod Tables
pub mod Memory
