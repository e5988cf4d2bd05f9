-- ===== src/Configuration.antt =====
-- include/cbe_init/configuration.h: the geometry of the trees that the initialisation is told.
--
-- The XML node is a parameter: `number` is the value of an attribute of a sub node, or 0 where the
-- node or the attribute is missing or no number.
use Prim.Native.String.{String}
use cbe.Prelude.{ℕ, ◌||◌, ◌==◌, if◌then◌else◌, Result, ok, throw, invalid_configuration, Bool}

pub record Configuration : Type 0 where
  pub vbd_nr_of_lvls : ℕ
  pub vbd_nr_of_children : ℕ
  pub vbd_nr_of_leafs : ℕ
  pub ft_nr_of_lvls : ℕ
  pub ft_nr_of_children : ℕ
  pub ft_nr_of_leafs : ℕ

-- what the constructor reads
unfoldable pub attributes : (String → String → ℕ) → Configuration
attributes number = record {
  vbd_nr_of_lvls = number "virtual-block-device" "nr_of_levels";
  vbd_nr_of_children = number "virtual-block-device" "nr_of_children";
  vbd_nr_of_leafs = number "virtual-block-device" "nr_of_leafs";
  ft_nr_of_lvls = number "free-tree" "nr_of_levels";
  ft_nr_of_children = number "free-tree" "nr_of_children";
  ft_nr_of_leafs = number "free-tree" "nr_of_leafs";
}

-- what the constructor checks
unfoldable pub has_zero : Configuration → Bool
has_zero c =
    c.vbd_nr_of_lvls == 0
    || c.vbd_nr_of_children == 0
    || c.vbd_nr_of_leafs == 0
    || c.ft_nr_of_lvls == 0
    || c.ft_nr_of_children == 0
    || c.ft_nr_of_leafs == 0

-- the constructor
unfoldable pub configuration : (String → String → ℕ) → Result Configuration
unfolding attributes has_zero
configuration number =
    let c = attributes number in if has_zero c then throw invalid_configuration else ok c
