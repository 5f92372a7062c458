-- ===== src/Dom.antt =====
-- `Node`, `Dom` and `CallbackRenderer` of crates/remote/src/lib.rs: a list of drawing requests, and
-- a renderer that runs it on a frame. Texts are lists of code points, as in `Frame/Draw`.
pub mod Valid
use btrm.Base.{ℕ, List, [], ◌∷◌, ◌++◌, Option, none, some, Bytes}
use btrm.Cell.{CellStyle, default_style}
use btrm.Frame.{FrameState, Rect, set_title}
use btrm.Frame.Draw.{clear, fill_rect, write_text, write_wrapped_text, write_scrolling_text}

pub data Node : Type 0 where
  fill : Rect → ℕ → CellStyle → Node
  text : ℕ → ℕ → List ℕ → CellStyle → Node
  wrapped_text : Rect → List ℕ → CellStyle → Node
  scrolling_text : Rect → List (List ℕ) → ℕ → CellStyle → Node

pub record Dom : Type 0 where
  pub background : CellStyle
  pub title : Option Bytes
  pub nodes : List Node

abbrev pub empty_dom : Dom
empty_dom = record { background = default_style; title = none; nodes = [] }

-- The background stays.
pub clear_dom : Dom → Dom
clear_dom d = record d { title = none; nodes = [] }

pub set_background : Dom → CellStyle → Dom
set_background d style = record d { background = style }

pub set_dom_title : Dom → Bytes → Dom
set_dom_title d title = record d { title = some title }

-- `fill`, `text`, `wrapped_text` and `scrolling_text` add their node.
pub push_node : Dom → Node → Dom
push_node d node = record d { nodes = d.nodes ++ (node ∷ []) }

abbrev title_or_empty : Option Bytes → Bytes
title_or_empty none = []
title_or_empty (some t) = t

module _ (char_width : ℕ → Option ℕ) (str_width : List ℕ → ℕ) where
  pub render_node : Node → FrameState → FrameState
  render_node (fill rect ch style) f = fill_rect char_width str_width f rect ch style
  render_node (text row col s style) f = (write_text char_width str_width f row col s style).0
  render_node (wrapped_text rect s style) f =
      (write_wrapped_text char_width str_width f rect s style).0
  render_node (scrolling_text rect lines offset_from_bottom style) f =
      write_scrolling_text char_width str_width f rect lines offset_from_bottom style

  pub render_nodes : List Node → FrameState → FrameState
  render_nodes [] f = f
  render_nodes (node ∷ nodes) f = render_nodes nodes (render_node node f)

  pub render_to : Dom → FrameState → FrameState
  unfolding render_nodes render_node
  render_to d f = render_nodes d.nodes (set_title (clear f d.background) (title_or_empty d.title)).0

  -- `CallbackRenderer::render`: the callback fills the cleared requests.
  pub render : (Dom → Dom) → Dom × FrameState → Dom × FrameState
  unfolding render_to clear_dom
  render callback (dom, frame) = let d = callback (clear_dom dom) in (d, render_to d frame)
