-- ===== src/Flow.antt =====
-- Flow collection (api/src/flow): records, templates, the NetFlow and IPFIX parsers.
pub mod Types
pub mod Fields
pub mod Numbers
pub mod Times
pub mod Record
pub mod Templates
pub mod NetflowV5
pub mod TemplateSet
pub mod DataSet
pub mod NetflowV9
pub mod Parse
pub mod Safety
mod Tests
