-- ===== src/Connections.antt =====
-- The Zuul connections of the custom resource: which are accepted, and where the config repository
-- is (controllers/softwarefactory_controller.go).
pub mod UserDefined
pub mod Valid
pub mod Duplicates
pub mod BaseUrl
pub mod Controller
