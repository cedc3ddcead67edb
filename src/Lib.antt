-- ===== src/Lib.antt =====
-- Scripts of the Muen separation kernel's build, written in Python, and theorems about them.
--
-- The parts and the files that model them:
--
-- * tools/plugins/documentation/doc_transfer.py carries the `doc` nodes of a joined policy over to the
--   policy B. DocTransfer/Graph.antt is its class `Graph`, DocTransfer/Subjects.antt the map from
--   components and libraries to subjects, DocTransfer/Rules.antt the notation of the rules and
--   `apply_rule`, DocTransfer/Maps.antt the dictionaries of rules, DocTransfer/Expansion.antt the
--   structure that says what to insert where with `add_to_output_func`, DocTransfer/Traverse.antt
--   `do_traversal_func` (DocTransfer/Traverse/Outputs.antt says what it puts out, and
--   DocTransfer/Maps/Plan.antt has the dictionaries in its form), DocTransfer/Apply.antt `apply_target_expansion`, and DocTransfer/Main.antt
--   `compile_target_expansion` and what `main` does to the two trees.
-- * tools/libmupy/muutils.py converts numbers to Ada literals and back: Muutils.antt, with Python's
--   `hex` and `int` in Muutils/Hex.antt.
-- * tools/scripts/mulog.py joins the continuation lines of a log: Mulog.antt.
-- * tools/scripts/mulog-subject.py filters the output of one subject out of a log: MulogSubject.antt.
-- * tools/scripts/solo5-muen-gencspec.py makes the specification of a component from a Solo5 binary:
--   Solo5/Memory.antt has the memory regions, Solo5/Channels.antt the channels of the network devices,
--   Solo5/Spec.antt the other changes, the checks, and the order of all of them in `gencspec`, and
--   Solo5/Patch.antt the patch of the binary. Solo5/Output.antt has the path of the output.
-- * policy/xml/smp/smpify.py turns a policy into one with several Linux cores: Smpify.antt, with the
--   minor frames in Smpify/Schedule.antt and the devices in Smpify/Devices.antt.
-- * policy/xml/mirageos/compose.py adds a unikernel to a policy: Compose.antt, and Compose/Policy.antt
--   for its other functions and the main part.
-- * components/linux/misc/linux-muen-gencspec.py makes the specification of the Linux component:
--   LinuxGencspec.antt, with the main part in LinuxGencspec/Main.antt.
-- * tools/libmuxml/schema_plugins/libmuxsdplugin.py and xsd_plugin_doc.py change an XML schema so that
--   `doc` elements may stand in every complex type: Xsd.antt has the names and texts of elements,
--   Xsd/Groups.antt the insertion of the reference to the group, and XsdDoc.antt the plugin. Their
--   specifications are in Xsd/Types.antt, Xsd/Content.antt and XsdDoc/Documented.antt.
-- * Five scripts that write a file: tools/scripts/mugenmanifest.py, the manifest of the memory, in
--   Mugenmanifest.antt; tools/scripts/cslencode.py, a CSL image, in Cslencode.antt;
--   components/dbgserver/misc/extract-subject-names.py in SubjectList.antt;
--   components/sm/misc/cpu-values.py in CpuValues.antt; and components/sl/misc/adjust-xml-spec.py in
--   AdjustXmlSpec.antt. SubjectList/Main.antt and CpuValues/Main.antt are the main parts of two of
--   them, with the checks of their arguments in Arguments.antt.
--
-- The scripts that write specifications and policies call muutils for their literals; all but the
-- two for logs and muutils change XML trees. Functions have the names that they have in the scripts,
-- and loops and blocks of a function have names of their own.
--
-- Shared modules: Base.antt and its children have Python's `str` as a list of code points
-- (Base/Text.antt), sets (Base/Sets.antt) and dictionaries (Base/Dict.antt) as lists, results with
-- exceptions (Base/Errors.antt), and the rounding to pages (Base/Pages.antt). Xml.antt is what the
-- scripts use of lxml, as an interface with the documented behaviour as its laws; Xml/Tree.antt
-- meets it, and Xml/Paths.antt is the idiom of updating the first element that a path reaches.
-- Xml/Names.antt adds prefixes and the paths with `local-name()`, whose steps are in
-- Xml/Steps.antt; Xml/Sections.antt is the update of a section by a function that may raise. An
-- update of an element in place is the tree with that element rebuilt. A function of a script that
-- looks its section up by a path gets the section as an argument. What lief and json return is a
-- record of the values that are read. Tests of the theorems at concrete inputs are under Tests.
--
-- Fuel: `reach_loop` has one round more than the graph has nodes, since every round but the last finds
-- a new node; `add_path` has one call more than the path has characters; `run` has the depth of the
-- action; `hex_digits` and `decimal_digits` have as many rounds as the number, and divide it in each.
--
-- Numbers are natural numbers where the scripts have no negative ones; a difference that may be
-- negative is an integer.
--
-- Not modelled: argparse, the reading and writing of files, messages, `print_expansion` (a debug
-- output), the text of a float, `create_subjects` of smpify.py (it runs Python code that stands in XML
-- files), the scripts that only extend the import path, and all that is written in other languages.
pub mod Base
pub mod Muutils
pub mod DocTransfer
pub mod Xml
pub mod Xsd
pub mod XsdDoc
pub mod Cslencode
pub mod SubjectList
pub mod CpuValues
pub mod AdjustXmlSpec
pub mod Arguments
pub mod Mugenmanifest
mod Tests
pub mod Mulog
pub mod Solo5
pub mod Smpify
pub mod Compose
pub mod LinuxGencspec
pub mod MulogSubject
