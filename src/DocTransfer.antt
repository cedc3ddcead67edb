-- ===== src/DocTransfer.antt =====
-- tools/plugins/documentation/doc_transfer.py: the transfer of `doc` nodes from the joined policy to
-- the policy B. `Graph` and `Subjects` say which subjects a component or library belongs to, `Rules`
-- is the language of the rules, `Expansion` the structure that says what to insert where, `Traverse`
-- runs the rules over the joined policy, and `Apply` makes the insertions.
pub mod Graph
pub mod Subjects
pub mod Rules
pub mod Expansion
pub mod Apply
pub mod Traverse
pub mod Maps
pub mod Main
