-- ===== src/Registry/Catalogue.antt =====
-- The catalogue of vios/process/registry.py, stage by stage.
pub mod Structure
pub mod Signal
pub mod Perception
pub mod Language
use vios_manus.Common.{List, ◌++◌}
use vios_manus.Registry.{Component}
use Structure.{structure_components}
use Signal.{signal_components}
use Perception.{perception_components}
use Language.{language_components}

abbrev catalogue : List Component
catalogue =
    structure_components ++ signal_components ++ perception_components ++ language_components
