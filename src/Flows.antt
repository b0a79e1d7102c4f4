-- ===== src/Flows.antt =====
-- Flows: the naming templates of app/application/services/naming_template_validator.py (Naming, with
-- their scan in Scan and what a match means in Render), and the document compliance of a flow, of
-- app/application/use_cases/flows/get_flow_document_compliance.py (Compliance, with the report's
-- meaning in Covered), and the links of a flow with subjects (Links).
pub mod Naming
pub mod Scan
pub mod Render
pub mod Compliance
pub mod Covered
pub mod Links
