-- ===== src/Dom/Valid.antt =====
-- A display list renders into a valid frame.
use btrm.Base.{ℕ, List, [], ◌∷◌, Option, Bytes, bytes_eq, Bool, true, false, if◌then◌else◌}
use btrm.Frame.{FrameState, set_title}
use btrm.Frame.Valid.{IsValid}
use btrm.Frame.Draw.{clear}
use btrm.Frame.Draw.Valid.{
  clear-IsValid, fill_rect-IsValid, write_text-IsValid, write_wrapped_text-IsValid,
  write_scrolling_text-IsValid,
}
use btrm.Dom.{
  Node, fill, text, wrapped_text, scrolling_text, Dom, title_or_empty, clear_dom, render_node,
  render_nodes, render_to, render,
}

set_title-IsValid : (f : FrameState) (t : Bytes) → IsValid f → IsValid (set_title f t).0
unfolding set_title
set_title-IsValid f t v = pick (bytes_eq f.title t)
  where
    pick :
        (b : Bool)
        → IsValid
            (if◌then◌else◌ {A = FrameState × Bool} b (f, false) (record f { title = t }, true)).0
    pick true = v
    pick false = record { cells_fill = v.cells_fill; flags_fill = v.flags_fill }

module _ (char_width : ℕ → Option ℕ) (str_width : List ℕ → ℕ) where
  render_nodes-IsValid :
      (nodes : List Node) (f : FrameState)
      → IsValid f
      → IsValid (render_nodes char_width str_width nodes f)
  unfolding render_nodes render_node
  render_nodes-IsValid [] f v = v
  render_nodes-IsValid (fill rect ch style ∷ nodes) f v =
      render_nodes-IsValid nodes _ (fill_rect-IsValid char_width str_width f rect ch style v)
  render_nodes-IsValid (text row col s style ∷ nodes) f v =
      render_nodes-IsValid nodes _ (write_text-IsValid char_width str_width f row col s style v)
  render_nodes-IsValid (wrapped_text rect s style ∷ nodes) f v =
      render_nodes-IsValid nodes _
        (write_wrapped_text-IsValid char_width str_width f rect s style v)
  render_nodes-IsValid (scrolling_text rect lines offset style ∷ nodes) f v =
      render_nodes-IsValid nodes _
        (write_scrolling_text-IsValid char_width str_width f rect lines offset style v)

  -- Whatever the callback asks for, rendering keeps a valid frame valid: every fill, text, wrapped
  -- text and scrolling text, inside the grid or not.
  pub render-IsValid :
      (callback : Dom → Dom) (dom : Dom) (frame : FrameState)
      → IsValid frame
      → IsValid (render char_width str_width callback (dom, frame)).1
  unfolding render render_to
  render-IsValid callback dom frame v =
      let d = callback (clear_dom dom) in
      render_nodes-IsValid d.nodes _ (
        set_title-IsValid (clear frame d.background) (title_or_empty d.title)
          (clear-IsValid frame d.background v))
